-- ===== src/Hub/UpdateResult/Stored.antt =====
-- What the results of an update leave in the rows of the containers (controller/src/ws/hub.ts, the loop of the case
-- UPDATE_RESULT; controller/src/db/queries.ts, insertUpdateLogAndDigests).
use mathlib.Core.List.{map-id, map-map}
use watchwarden.Base.{
  ℕ, ◌≡◌, refl, sym, ap, ◌∙◌, Bool, true, false, ◌&&◌, Option, some, List, [], ◌∷◌, map, arith,
  Text, if◌then◌else◌, or_else, any, if_cases, if_split,
}
use watchwarden.JsMap
use watchwarden.JsMap.{Map, get-delete}
use watchwarden.Hub.AutoUpdate.{Container, has_id, update_where}
use watchwarden.Hub.UpdateResult.{
  UpdateResultItem, Payload, State, Policy, is_stored, write_digest, store_digest, store_result,
  store_results, update_result, results_of, report_rollback, differs,
}

abbrev pub ids_of : List UpdateResultItem → List Text
ids_of = map (λ r. r.container_id)

row_step : Bool → UpdateResultItem → Container → Container
row_step b r c =
    if is_stored r && has_id r.container_id c then write_digest b (or_else r.new_digest []) c else c

-- The changes that the results make to one row, in their order.
unfoldable pub row_after : Bool → List UpdateResultItem → Container → Container
unfolding row_step
row_after b [] c = c
row_after b (r ∷ rs) c = row_after b rs (row_step b r c)

update_where-map :
    (id : Text) (f : Container → Container) (cs : List Container)
    → update_where id f cs ≡ map (λ c. if has_id id c then f c else c) cs
unfolding update_where
update_where-map id f [] = refl
update_where-map id f (c ∷ cs) =
    ap (λ x. (if has_id id c then f c else c) ∷ x) (update_where-map id f cs)

where_if-map :
    (t : Bool) (id : Text) (f : Container → Container) (cs : List Container)
    → (if t then update_where id f cs else cs) ≡ map (λ c. if t && has_id id c then f c else c) cs
where_if-map true id f cs = update_where-map id f cs
where_if-map false id f cs = sym (map-id cs)

store_result-rows :
    (agent_id : Text) (b : Bool) (r : UpdateResultItem) (s : State)
    → (store_result agent_id b r s).hub.containers ≡ map (row_step b r) s.hub.containers
unfolding store_result store_digest row_step
store_result-rows agent_id b r s =
    where_if-map (is_stored r) r.container_id (write_digest b (or_else r.new_digest []))
      s.hub.containers

store_results-rows :
    (agent_id : Text) (b : Bool) (rs : List UpdateResultItem) (s : State)
    → (store_results agent_id b rs s).hub.containers ≡ map (row_after b rs) s.hub.containers
unfolding store_results row_after
store_results-rows agent_id b [] s = sym (map-id s.hub.containers)
store_results-rows agent_id b (r ∷ rs) s =
    store_results-rows agent_id b rs (store_result agent_id b r s)
    ∙ ap (map (row_after b rs)) (store_result-rows agent_id b r s)
    ∙ map-map (row_after b rs) (row_step b r) s.hub.containers

-- Whether a result whose digest is stored names a row.
abbrev pub names_row : Container → UpdateResultItem → Bool
names_row c r = is_stored r && has_id r.container_id c

-- What the results of a forward update leave of a row that they name.
abbrev IsUpToDate : Container → Type 0
IsUpToDate c = (c.has_update ≡ false) × (c.latest_digest ≡ c.current_digest)

-- What those of a rollback leave of it: the latest digest as it was known, and the update it means.
abbrev IsRolledBack : Container → Container → Type 0
IsRolledBack before after =
    (after.latest_digest ≡ before.latest_digest)
    × ((digest : Text) × (after.current_digest ≡ some digest)
        × (after.has_update ≡ differs before.latest_digest digest))

row_after-other :
    (b : Bool) (rs : List UpdateResultItem) (c : Container)
    → any (names_row c) rs ≡ false
    → row_after b rs c ≡ c
unfolding row_after row_step
row_after-other b [] c h = refl
row_after-other b (r ∷ rs) c h =
    let skips : names_row c r ≡ false = ground arith in
    rw skips (row_after-other b rs c (ground arith))

write_digest-IsUpToDate : (digest : Text) (c : Container) → IsUpToDate (write_digest false digest c)
unfolding write_digest
write_digest-IsUpToDate digest c = (refl, refl)

write_digest-IsRolledBack :
    (digest : Text) (c : Container) → IsRolledBack c (write_digest true digest c)
unfolding write_digest
write_digest-IsRolledBack digest c = (refl, (digest, refl, refl))

row_step-IsUpToDate :
    (r : UpdateResultItem) (c : Container) → IsUpToDate c → IsUpToDate (row_step false r c)
unfolding row_step write_digest
row_step-IsUpToDate r c h = if_cases IsUpToDate (names_row c r) (refl, refl) h

row_after-keeps_IsUpToDate :
    (rs : List UpdateResultItem) (c : Container) → IsUpToDate c → IsUpToDate (row_after false rs c)
unfolding row_after
row_after-keeps_IsUpToDate [] c h = h
row_after-keeps_IsUpToDate (r ∷ rs) c h =
    row_after-keeps_IsUpToDate rs (row_step false r c) (row_step-IsUpToDate r c h)

row_after-IsUpToDate :
    (rs : List UpdateResultItem) (c : Container)
    → any (names_row c) rs ≡ true
    → IsUpToDate (row_after false rs c)
unfolding row_after row_step
row_after-IsUpToDate [] c h = cc
row_after-IsUpToDate (r ∷ rs) c h =
    if_split (λ d. IsUpToDate (row_after false rs d)) (names_row c r)
      (λ _. row_after-keeps_IsUpToDate rs _ (write_digest-IsUpToDate (or_else r.new_digest []) c))
      (λ other. row_after-IsUpToDate rs c (ground arith))

row_step-IsRolledBack :
    (before : Container) (r : UpdateResultItem) (c : Container)
    → IsRolledBack before c
    → IsRolledBack before (row_step true r c)
unfolding row_step write_digest
row_step-IsRolledBack before r c (p, q) =
    if_cases (IsRolledBack before) (names_row c r)
      (p, (or_else r.new_digest [], refl, ap (λ l. differs l (or_else r.new_digest [])) p)) (p, q)

row_after-keeps_IsRolledBack :
    (before : Container) (rs : List UpdateResultItem) (c : Container)
    → IsRolledBack before c
    → IsRolledBack before (row_after true rs c)
unfolding row_after
row_after-keeps_IsRolledBack before [] c h = h
row_after-keeps_IsRolledBack before (r ∷ rs) c h =
    row_after-keeps_IsRolledBack before rs (row_step true r c) (row_step-IsRolledBack before r c h)

row_after-IsRolledBack :
    (rs : List UpdateResultItem) (c : Container)
    → any (names_row c) rs ≡ true
    → IsRolledBack c (row_after true rs c)
unfolding row_after row_step
row_after-IsRolledBack [] c h = cc
row_after-IsRolledBack (r ∷ rs) c h =
    if_split (λ d. IsRolledBack c (row_after true rs d)) (names_row c r)
      (λ _.
        row_after-keeps_IsRolledBack c rs _ (write_digest-IsRolledBack (or_else r.new_digest []) c))
      (λ other. row_after-IsRolledBack rs c (ground arith))

abbrev pub is_rollback_of : Payload → Bool
is_rollback_of p = or_else p.is_rollback false

-- The state in which the results are stored.
abbrev pub cleared : Text → State → State
cleared agent_id s =
    let hub = s.hub in
    record s {
      hub = record hub { auto_update_in_flight = JsMap.remove agent_id hub.auto_update_in_flight };
    }

pub update_result-stores :
    (agent_id : Text) (name : Option Text) (policy : Policy) (now : ℕ) (p : Payload) (s : State)
    → let t = update_result agent_id name policy now p s in
      let u = store_results agent_id (is_rollback_of p) (results_of p) (cleared agent_id s) in
      (t.hub ≡ u.hub) × (t.update_log ≡ u.update_log)
unfolding update_result report_rollback
update_result-stores agent_id name policy now p s =
    let u = store_results agent_id (is_rollback_of p) (results_of p) (cleared agent_id s) in
    if_cases {A = State} (λ t. (t.hub ≡ u.hub) × (t.update_log ≡ u.update_log)) p.auto_rolled_back
      (refl, refl) (refl, refl)

-- What becomes of a row, by whether a result names it and whether it is a rollback.
abbrev pub IsRowAfter : (named is_rollback : Bool) → Container → Container → Type 0
IsRowAfter false b before after = after ≡ before
IsRowAfter true false before after = IsUpToDate after
IsRowAfter true true before after = IsRolledBack before after

row_after-IsRowAfter :
    (named b : Bool) (rs : List UpdateResultItem) (c : Container)
    → any (names_row c) rs ≡ named
    → IsRowAfter named b c (row_after b rs c)
row_after-IsRowAfter false b rs c h = row_after-other b rs c h
row_after-IsRowAfter true false rs c h = row_after-IsUpToDate rs c h
row_after-IsRowAfter true true rs c h = row_after-IsRolledBack rs c h

-- The rows after the results of an update are those before, each changed by itself; and of any row
-- `c`: if no result with a new digest names it, it stays. If one does, it has no update and its latest
-- digest is the one it runs, unless it was a rollback: then the latest digest stays, and it has an
-- update just when this is known and another one.
pub update_result-rows :
    (agent_id : Text) (name : Option Text) (policy : Policy) (now : ℕ) (p : Payload) (s : State)
    (c : Container)
    → let after = row_after (is_rollback_of p) (results_of p) in
      ((update_result agent_id name policy now p s).hub.containers ≡ map after s.hub.containers)
      × IsRowAfter (any (names_row c) (results_of p)) (is_rollback_of p) c (after c)
update_result-rows agent_id name policy now p s c = (
  ap (λ h. h.containers) (update_result-stores agent_id name policy now p s).0
      ∙ store_results-rows agent_id (is_rollback_of p) (results_of p) (cleared agent_id s),
  row_after-IsRowAfter _ (is_rollback_of p) (results_of p) c refl,
)
