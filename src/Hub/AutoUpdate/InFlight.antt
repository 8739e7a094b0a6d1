-- ===== src/Hub/AutoUpdate/InFlight.antt =====
-- Automatic updates do not overlap (controller/src/ws/hub.ts, autoUpdateInFlight).
use watchwarden.Base.{
  ℕ, ◌+◌, ◌≤◌, ◌≡◌, refl, sym, ap, ◌∙◌, Bool, false, not, ◌&&◌, ◌||◌, List, [], ◌∷◌, ◌++◌, map,
  arith, Text, ◌===◌, ===_iff, ltb, if◌then◌else◌, if_cases, length, keep, find,
}
use watchwarden.JsMap
use watchwarden.Hub.AutoUpdate.{
  Container, CheckResultItem, Config, Hub, Sent, update, check_complete, dispatch_check_results,
  check_result, decide, auto_update, send_update, notify, record_item, record_items, eligible,
  has_id, update_where, write_row, was_update, notified_name,
}

-- What happens: a check's results; an update's results, a new registration or the end of the
-- connection, which clear the mark; or `setUpdateInFlight` of the API.
pub data Event : Type 0 where
  checked : (agent_id : Text) (now : ℕ) → Config → List CheckResultItem → Event
  ended : (agent_id : Text) → Event
  set_update_in_flight : (agent_id : Text) → Bool → Event

unfoldable pub step : Event → Hub → Hub
step (checked agent_id now config items) h = check_result now agent_id config items h
step (ended agent_id) h = record h {
  auto_update_in_flight = JsMap.remove agent_id h.auto_update_in_flight;
}
step (set_update_in_flight agent_id in_flight) h = record h {
  auto_update_in_flight =
      if in_flight
      then JsMap.add agent_id h.auto_update_in_flight
      else JsMap.remove agent_id h.auto_update_in_flight;
}

unfoldable pub run : List Event → Hub → Hub
unfolding step
run [] h = h
run (e ∷ es) h = run es (step e h)

abbrev one_if : Bool → ℕ
one_if b = if b then 1 else 0

-- The UPDATE messages to an agent.
abbrev is_update_to : Text → Sent → Bool
is_update_to a (update b ids strategy) = b === a
is_update_to a (check_complete b n m) = false
is_update_to a (dispatch_check_results b names) = false

abbrev pub updates : Text → List Sent → ℕ
updates a [] = 0
updates a (s ∷ ss) = one_if (is_update_to a s) + updates a ss

-- The events that clear an agent's mark.
abbrev clears : Text → Event → Bool
clears a (checked b now config items) = false
clears a (ended b) = b === a
clears a (set_update_in_flight b in_flight) = b === a && not in_flight

abbrev pub ends : Text → List Event → ℕ
ends a [] = 0
ends a (e ∷ es) = one_if (clears a e) + ends a es

-- The updates that were sent, and the one that may be sent without a mark.
abbrev potential : Text → Hub → ℕ
potential a h = updates a h.sent + one_if (not (JsMap.member a h.auto_update_in_flight))

updates-append :
    (a : Text) (ss : List Sent) (s : Sent)
    → updates a (ss ++ s ∷ []) ≡ updates a ss + one_if (is_update_to a s)
updates-append a [] s = omega arith
updates-append a (x ∷ ss) s = omega (arith, updates-append a ss s)

pub record_items-keeps :
    (now : ℕ) (before : List Container) (items : List CheckResultItem) (h : Hub)
    → ((record_items now before items h).sent ≡ h.sent)
      × ((record_items now before items h).auto_update_in_flight ≡ h.auto_update_in_flight)
unfolding record_items record_item
record_items-keeps now before [] h = (refl, refl)
record_items-keeps now before (r ∷ rs) h =
    if_cases
      (λ k.
        ((record_items now before rs k).sent ≡ h.sent)
        × ((record_items now before rs k).auto_update_in_flight ≡ h.auto_update_in_flight))
      r.check_failed (record_items-keeps now before rs h)
      (record_items-keeps now before rs (record h {
        containers =
            update_where r.container_id
              (write_row now (was_update (find (has_id r.container_id) before)) r) h.containers;
        pending_diffs = JsMap.set r.container_id r.diff h.pending_diffs;
      }))

same_member : (b a : Text) (s : List Text) → b ≡ a → JsMap.member a s ≡ JsMap.member b s
same_member b a s e = ap (λ x. JsMap.member x s) (sym e)

auto_update-potential :
    (a : Text) (now : ℕ) (agent_id : Text) (config : Config) (items : List CheckResultItem)
    (h : Hub)
    → potential a (auto_update now agent_id config items h) ≤ potential a h
unfolding auto_update send_update
auto_update-potential a now b config items h =
    let ids = map (λ r. r.container_id) (keep (eligible now config h.containers) items) in
    ground (
      arith,
      updates-append a h.sent (update b ids config.policy.strategy),
      JsMap.member-add b a h.auto_update_in_flight,
      JsMap.member-remove b a (JsMap.add b h.auto_update_in_flight),
      ===_iff b a,
      same_member b a h.auto_update_in_flight,
    )

plus_zero : (x y : ℕ) → x + 0 + y ≡ x + y
plus_zero x y = omega arith

notify-potential :
    (a b : Text) (before : List Container) (items : List CheckResultItem) (h : Hub)
    → potential a (notify b before items h) ≤ potential a h
unfolding notify
notify-potential a b before items h = omega (
  arith,
  updates-append a h.sent
      (dispatch_check_results b (map (notified_name before) (keep (λ r. r.has_update) items))),
)

decide-potential :
    (a : Text) (now : ℕ) (b : Text) (config : Config) (items : List CheckResultItem)
    → (before : List Container) (n : ℕ) (h : Hub)
    → potential a (decide now b config items before n h) ≤ potential a h
unfolding decide notify
decide-potential a now b config items before n h =
    if_cases (λ k. potential a k ≤ potential a h)
      ((config.auto_update || config.auto_update_global) && ltb 0 n)
      (auto_update-potential a now b config items h)
      (if_cases (λ k. potential a k ≤ potential a h) (ltb 0 n) (notify-potential a b before items h)
        (omega arith))

announce-potential :
    (a : Text) (b : Text) (n m : ℕ) (h k : Hub)
    → k.sent ≡ h.sent
    → k.auto_update_in_flight ≡ h.auto_update_in_flight
    → potential a (record k { sent = k.sent ++ check_complete b n m ∷ [] }) ≡ potential a h
announce-potential a b n m h k e f =
    ap (λ x. x + one_if (not (JsMap.member a k.auto_update_in_flight)))
      (updates-append a k.sent (check_complete b n m))
    ∙ plus_zero _ _
    ∙ ap (λ x. updates a x + one_if (not (JsMap.member a k.auto_update_in_flight))) e
    ∙ ap (λ x. updates a h.sent + one_if (not (JsMap.member a x))) f

check_result-potential :
    (a : Text) (now : ℕ) (b : Text) (config : Config) (items : List CheckResultItem) (h : Hub)
    → potential a (check_result now b config items h) ≤ potential a h
unfolding check_result
check_result-potential a now b config items h =
    let n = length (keep (λ r. r.has_update) items) in
    let m = length (keep (λ r. r.check_failed) items) in
    let stored = record_items now h.containers items h in
    let (e, f) = record_items-keeps now h.containers items h in
    omega (
      arith,
      announce-potential a b n m h stored e f,
      decide-potential a now b config items h.containers n
          (record stored { sent = stored.sent ++ check_complete b n m ∷ [] }),
    )

step-potential :
    (a : Text) (e : Event) (h : Hub) → potential a (step e h) ≤ potential a h + one_if (clears a e)
unfolding step
step-potential a (checked b now config items) h =
    omega (arith, check_result-potential a now b config items h)
step-potential a (ended b) h = ground (arith, JsMap.member-remove b a h.auto_update_in_flight)
step-potential a (set_update_in_flight b in_flight) h = ground (
  arith,
  JsMap.member-remove b a h.auto_update_in_flight,
  JsMap.member-add b a h.auto_update_in_flight,
)

run-potential :
    (a : Text) (es : List Event) (h : Hub) → potential a (run es h) ≤ potential a h + ends a es
unfolding run
run-potential a [] h = omega arith
run-potential a (e ∷ es) h = omega (arith, step-potential a e h, run-potential a es (step e h))

-- However checks, reconnects and updates interleave: from a hub that has sent nothing, an agent is
-- sent at most one automatic update more than there were events that cleared its mark. So between
-- two updates there is one.
pub run-updates :
    (a : Text) (es : List Event) (h : Hub) → h.sent ≡ [] → updates a (run es h).sent ≤ 1 + ends a es
run-updates a es h e = ground (arith, run-potential a es h, ap (updates a) e)
