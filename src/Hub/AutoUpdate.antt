-- ===== src/Hub/AutoUpdate.antt =====
-- A check's results (controller/src/ws/hub.ts, the CHECK_RESULT and UPDATE_RESULT cases, with the
-- statements of controller/src/db/queries.ts that they run): what is stored of them, and whether
-- they start an update. `containers` are the agent's rows of the database. The image text of a
-- notification is left out.
mod Data
pub use Data.*
pub mod Eligible
pub mod Sound
pub mod InFlight
pub mod FirstSeen
use watchwarden.Base.{
  ℕ, zero, ◌+◌, ◌-◌, ◌*◌, ◌≡◌, Bool, true, false, not, ◌&&◌, ◌||◌, Option, none, some, List, [],
  ◌∷◌, ◌++◌, map, Text, text, ◌===◌, ltb, ◌==◌, if◌then◌else◌, or_else, is_some, is_empty, length,
  find, keep,
}
use watchwarden.JsMap
use watchwarden.JsMap.{Map}
use watchwarden.Semver.{extract_tag, semver_matches_level}

-- `c.docker_id === id || c.id === id`
unfoldable pub has_id : Text → Container → Bool
has_id id c = c.docker_id === id || c.id === id

-- An UPDATE statement on the rows of an id.
unfoldable pub update_where : Text → (Container → Container) → List Container → List Container
unfolding has_id
update_where id f [] = []
update_where id f (c ∷ cs) = (if has_id id c then f c else c) ∷ update_where id f cs

unfoldable pub was_update : Option Container → Bool
was_update none = false
was_update (some c) = c.has_update

-- `update_first_seen`, where the container had no update before but has one now, and the reverse.
unfoldable pub stamp : ℕ → (was has : Bool) → Option ℕ → Option ℕ
stamp now was has seen = if has && not was then some now else if not has && was then none else seen

-- The row as the statements of one result leave it.
unfoldable pub write_row : ℕ → Bool → CheckResultItem → Container → Container
unfolding stamp
write_row now was r c = record c {
  current_digest = some (or_else r.current_digest []);
  latest_digest = some (or_else r.latest_digest []);
  has_update = r.has_update;
  diff = r.diff;
  update_first_seen = stamp now was r.has_update c.update_first_seen;
}

-- One round of the loop; `before` are the rows as they were before the loop.
unfoldable pub record_item : ℕ → List Container → CheckResultItem → Hub → Hub
unfolding update_where was_update write_row
record_item now before r h =
    let was = was_update (find (has_id r.container_id) before) in
    if r.check_failed then h else record h {
      containers = update_where r.container_id (write_row now was r) h.containers;
      pending_diffs = JsMap.set r.container_id r.diff h.pending_diffs;
    }

unfoldable pub record_items : ℕ → List Container → List CheckResultItem → Hub → Hub
unfolding record_item
record_items now before [] h = h
record_items now before (r ∷ rs) h = record_items now before rs (record_item now before r h)

-- `a ?? b`
unfoldable pub first_of : Option Text → Option Text → Option Text
first_of none b = b
first_of (some a) b = some a

-- `a || b`, of a text that may be missing.
unfoldable pub level_or : Option Text → Text → Text
level_or none b = b
level_or (some a) b = if is_empty a then b else a

-- "manual" and "notify" rule an update out.
unfoldable pub holds_back : Option Text → Bool
holds_back none = false
holds_back (some p) = p === text "manual" || p === text "notify"

unfoldable pub effective_policy : Option Container → Option Text
unfolding first_of
effective_policy none = none
effective_policy (some c) = first_of c.label_policy c.policy

unfoldable pub is_stateful : Option Container → Bool
is_stateful none = false
is_stateful (some c) = c.is_stateful

unfoldable pub first_seen : Option Container → Option ℕ
first_seen none = none
first_seen (some c) = c.update_first_seen

unfoldable pub image_of : Option Container → Text
image_of none = []
image_of (some c) = c.image

unfoldable pub effective_level : Option Container → Text → Text
unfolding level_or
effective_level none global = global
effective_level (some c) global = level_or c.label_update_level (level_or c.update_level global)

-- Whether the update has been visible for long enough.
unfoldable pub old_enough : ℕ → ℕ → Option ℕ → Bool
old_enough now min_age_hours none = min_age_hours == 0
old_enough now min_age_hours (some seen) =
    min_age_hours == 0
    || (not (seen == 0) && not (ltb (now - seen) (min_age_hours * 60 * 60 * 1000)))

-- The semver rule; it applies where both tags are known.
unfoldable pub level_permits : Text → Text → Text → Bool
level_permits level current_tag candidate_tag =
    if is_empty level || level === text "all"
    then true
    else if is_empty current_tag || is_empty candidate_tag
    then true
    else semver_matches_level current_tag candidate_tag level

-- The filter of a result, given its container.
unfoldable pub passes : ℕ → Config → CheckResultItem → Option Container → Bool
unfolding effective_policy is_stateful first_seen image_of effective_level
passes now config r c =
    r.has_update
    && not (holds_back (effective_policy c))
    && not (is_stateful c)
    && old_enough now config.policy.min_age_hours (first_seen c)
    && level_permits (effective_level c config.global_update_level) (extract_tag (image_of c))
        (extract_tag (or_else r.latest_digest []))

unfoldable pub eligible : ℕ → Config → List Container → CheckResultItem → Bool
eligible now config containers r = passes now config r (find (has_id r.container_id) containers)

unfoldable pub send_update : Text → List Text → Text → Hub → Hub
send_update agent_id container_ids strategy h =
    if is_empty container_ids
    then record h { auto_update_in_flight = JsMap.remove agent_id h.auto_update_in_flight }
    else record h { sent = h.sent ++ update agent_id container_ids strategy ∷ [] }

unfoldable pub auto_update : ℕ → Text → Config → List CheckResultItem → Hub → Hub
unfolding send_update
auto_update now agent_id config items h =
    if JsMap.member agent_id h.auto_update_in_flight
    then h
    else send_update agent_id
        (map (λ r. r.container_id) (keep (eligible now config h.containers) items))
        config.policy.strategy
        (record h { auto_update_in_flight = JsMap.add agent_id h.auto_update_in_flight })

unfoldable pub notified_name : List Container → CheckResultItem → Text
notified_name before r = elim (find (has_id r.container_id) before) [
  | some c ↦ c.name
  | none ↦ or_else r.container_name r.container_id
]

unfoldable pub notify : Text → List Container → List CheckResultItem → Hub → Hub
unfolding notified_name
notify agent_id before items h = record h {
  sent =
      h.sent
      ++ dispatch_check_results agent_id
          (map (notified_name before) (keep (λ r. r.has_update) items))
        ∷ [];
}

-- What a check leads to, once it is stored and announced.
unfoldable pub decide : ℕ → Text → Config → List CheckResultItem → List Container → ℕ → Hub → Hub
unfolding auto_update notify
decide now agent_id config items before updates_available h =
    if (config.auto_update || config.auto_update_global) && ltb 0 updates_available
    then auto_update now agent_id config items h
    else if ltb 0 updates_available
    then notify agent_id before items h
    else h

-- The case CHECK_RESULT; `results: null` is the empty list.
unfoldable pub check_result : ℕ → Text → Config → List CheckResultItem → Hub → Hub
unfolding record_items decide
check_result now agent_id config items h =
    let updates_available = length (keep (λ r. r.has_update) items) in
    let failed_checks = length (keep (λ r. r.check_failed) items) in
    let stored = record_items now h.containers items h in
    decide now agent_id config items h.containers updates_available (record stored {
      sent = stored.sent ++ check_complete agent_id updates_available failed_checks ∷ [];
    })
