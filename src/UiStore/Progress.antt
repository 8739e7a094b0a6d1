-- ===== src/UiStore/Progress.antt =====
-- What the end of an update and a heartbeat do to the shown progress (ui/src/store/useStore.ts,
-- handleWSEvent).
use mathlib.Core.Path.{subst}
use watchwarden.Base.{
  ℕ, ◌-◌, ◌≤◌, ◌≡◌, refl, sym, ap, ◌∙◌, Bool, true, false, not, ◌&&◌, ◌||◌, Option, none, some,
  List, [], ◌∷◌, arith, Text, ===_iff, ltb, if◌then◌else◌, length, All,
}
use watchwarden.JsMap
use watchwarden.JsMap.{Map}
use watchwarden.UiStore.{
  Store, UpdateProgress, UpdateResult, completed_keys, update_complete, clear_completed,
  tell_complete, without_keys, delete_keys, merge, flush, is_of, without_stale, heartbeat_received,
  add_toast,
}

same_member : (j k : Text) (ks : List Text) → j ≡ k → JsMap.member j ks ≡ JsMap.member k ks
same_member j k ks e = ap (λ x. JsMap.member x ks) e

same_agent : (a j k : Text) → j ≡ k → is_of a j ≡ is_of a k
same_agent a j k e = ap (is_of a) e

abbrev pub is_absent : Option UpdateProgress → Bool
is_absent none = true
is_absent (some v) = false

get-without_keys :
    (ks : List Text) (k : Text) (m : Map UpdateProgress)
    → JsMap.get k (without_keys ks m) ≡ (if JsMap.member k ks then none else JsMap.get k m)
unfolding without_keys JsMap.get
get-without_keys ks k [] = ground arith
get-without_keys ks k ((j, v) ∷ m) =
    ground (arith, get-without_keys ks k m, ===_iff j k, same_member j k ks)

get-delete_keys :
    (ks : List Text) (k : Text) (m : Map UpdateProgress)
    → JsMap.get k (delete_keys ks m) ≡ (if JsMap.member k ks then none else JsMap.get k m)
unfolding delete_keys JsMap.member
get-delete_keys [] k m = refl
get-delete_keys (j ∷ ks) k m =
    ground (arith, get-delete_keys ks k (JsMap.delete j m), JsMap.get-delete j k m)

get-merge_absent :
    (k : Text) (m batch : Map UpdateProgress)
    → JsMap.get k batch ≡ none
    → JsMap.get k (merge m batch) ≡ JsMap.get k m
unfolding merge JsMap.get
get-merge_absent k m [] h = refl
get-merge_absent k m ((j, v) ∷ batch) h =
    ground (arith, get-merge_absent k (JsMap.set j v m) batch, JsMap.get-set j k v m)

gone :
    (k : Text) (ks : List Text) (m batch : Map UpdateProgress)
    → (not (JsMap.member k ks)
        || is_absent (JsMap.get k (merge (without_keys ks m) (delete_keys ks batch))))
      ≡ true
gone k ks m batch = ground (
  arith,
  get-merge_absent k (without_keys ks m) (delete_keys ks batch),
  get-without_keys ks k m,
  get-delete_keys ks k batch,
)

-- When an update completes, the containers that its results name, by the id from before the
-- update, are shown no more, also after the buffered progress is flushed; the progress of every
-- other container, shown or buffered, stays as it was.
pub update_complete_lem :
    (agent_id : Text) (results : List UpdateResult) (now : ℕ) (s : Store) (key : Text)
    → let after = update_complete agent_id results now s in
      let completed = JsMap.member key (completed_keys agent_id results) in
      (JsMap.get key after.update_progress
        ≡ (if completed then none else JsMap.get key s.update_progress))
      × (JsMap.get key after.progress_buffer
          ≡ (if completed then none else JsMap.get key s.progress_buffer))
      × ((not completed || is_absent (JsMap.get key (flush after).update_progress)) ≡ true)
unfolding update_complete clear_completed tell_complete add_toast flush
update_complete_lem a results now s k =
    let ks = completed_keys a results in
    let shown = get-without_keys ks k s.update_progress in
    let buffered = get-delete_keys ks k s.progress_buffer in
    (shown, buffered, gone k ks s.update_progress s.progress_buffer)

length-without_stale :
    (a : Text) (t : ℕ) (m : Map UpdateProgress) → length (without_stale a t m) ≤ length m
unfolding without_stale
length-without_stale a t [] = omega arith
length-without_stale a t ((k, v) ∷ m) = ground (arith, length-without_stale a t m)

-- Nothing was stale where no entry goes.
without_stale_same :
    (a : Text) (t : ℕ) (m : Map UpdateProgress)
    → length (without_stale a t m) ≡ length m
    → without_stale a t m ≡ m
unfolding without_stale
without_stale_same a t [] e = refl
without_stale_same a t ((k, v) ∷ m) e =
    ground (arith, length-without_stale a t m, without_stale_same a t m)

fresh_left :
    (a : Text) (t : ℕ) (m : Map UpdateProgress)
    → All (λ e. (is_of a e.0 && ltb e.1.timestamp t) ≡ false) (without_stale a t m)
unfolding without_stale
fresh_left a t [] = tt
fresh_left a t ((k, v) ∷ m) = ground (arith, fresh_left a t m)

get-without_stale :
    (a : Text) (t : ℕ) (k : Text) (m : Map UpdateProgress)
    → is_of a k ≡ false
    → JsMap.get k (without_stale a t m) ≡ JsMap.get k m
unfolding without_stale JsMap.get
get-without_stale a t k [] n = refl
get-without_stale a t k ((j, v) ∷ m) n =
    ground (arith, get-without_stale a t k m n, ===_iff j k, same_agent a j k)

heartbeat-progress :
    (a : Text) (now : ℕ) (s : Store)
    → (heartbeat_received a now s).update_progress ≡ without_stale a (now - 60000) s.update_progress
unfolding heartbeat_received
heartbeat-progress a now s = ground (arith, without_stale_same a (now - 60000) s.update_progress)

-- After a heartbeat no progress of its agent is shown that is older than 60 s, and the progress of
-- every container of another agent is shown as before.
pub heartbeat_received_lem :
    (agent_id : Text) (now : ℕ) (s : Store) (key : Text)
    → is_of agent_id key ≡ false
    → All
        (λ e. (is_of agent_id e.0 && ltb e.1.timestamp (now - 60000)) ≡ false)
        (heartbeat_received agent_id now s).update_progress
      × (JsMap.get key (heartbeat_received agent_id now s).update_progress
          ≡ JsMap.get key s.update_progress)
heartbeat_received_lem a now s key n =
    let e = heartbeat-progress a now s in
    (
      subst (All (λ e. (is_of a e.0 && ltb e.1.timestamp (now - 60000)) ≡ false)) (sym e)
          (fresh_left a (now - 60000) s.update_progress),
      ap (JsMap.get key) e ∙ get-without_stale a (now - 60000) key s.update_progress n,
    )
