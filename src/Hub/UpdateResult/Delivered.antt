-- ===== src/Hub/UpdateResult/Delivered.antt =====
-- What the results of an update are told to the operator and to the agent (controller/src/ws/hub.ts,
-- the case UPDATE_RESULT, with controller/src/notifications/session-batcher.ts).
use mathlib.Core.List.{append-nil}
use watchwarden.Base.{
  ℕ, ◌≡◌, refl, sym, ap, ◌∙◌, Bool, true, false, not, ◌&&◌, Option, List, [], ◌∷◌, ◌++◌, map, arith,
  Text, text, ◌===◌, ===_refl, if◌then◌else◌, or_else, keep, if_cases,
}
use watchwarden.SessionBatcher.{
  Success, Failure, Batcher, Call, adds_update_result, run, initial, clear_pending_timers,
  add_update_result,
}
use watchwarden.SessionBatcher.Results.{
  reported_successes, reported_failures, sent_successes, sent_failures,
}
use watchwarden.SessionBatcher.Delivery.{run_delivers_all, reported-append, run-append}
use watchwarden.Hub.UpdateResult.{
  UpdateResultItem, Payload, State, Policy, Message, check, monitor_health, store_result,
  store_results, update_result, results_of, report_rollback, add_results, notified_item, follow_ups,
  check_again, monitor, addressed,
}
use watchwarden.Hub.UpdateResult.Stored.{is_rollback_of, cleared, ids_of}

-- The results as calls of the batcher.
abbrev calls : Text → ℕ → List UpdateResultItem → List Call
calls name now = map (λ r. adds_update_result name (notified_item r) now)

add_results-run :
    (name : Text) (now : ℕ) (rs : List UpdateResultItem) (b : Batcher)
    → add_results name now rs b ≡ run (calls name now rs) b
unfolding add_results run
add_results-run name now [] b = refl
add_results-run name now (r ∷ rs) b =
    add_results-run name now rs (add_update_result name (notified_item r) now b)

store_results-keeps :
    (agent_id : Text) (b : Bool) (rs : List UpdateResultItem) (s : State)
    → let t = store_results agent_id b rs s in (t.batcher ≡ s.batcher) × (t.messages ≡ s.messages)
unfolding store_results store_result
store_results-keeps agent_id b [] s = (refl, refl)
store_results-keeps agent_id b (r ∷ rs) s =
    store_results-keeps agent_id b rs (store_result agent_id b r s)

abbrev pub success_of : UpdateResultItem → Success
success_of r = record { name = r.container_name; image = []; duration_ms = r.duration_ms }

abbrev pub failure_of : UpdateResultItem → Failure
failure_of r = record { name = r.container_name; error = or_else r.error (text "unknown") }

abbrev pub successes : List UpdateResultItem → List UpdateResultItem
successes = keep (λ r. r.success)

abbrev pub failures : List UpdateResultItem → List UpdateResultItem
failures = keep (λ r. not r.success)

calls-reported :
    (name : Text) (now : ℕ) (rs : List UpdateResultItem)
    → (reported_successes name (calls name now rs) ≡ map success_of (successes rs))
      × (reported_failures name (calls name now rs) ≡ map failure_of (failures rs))
unfolding reported_successes reported_failures notified_item
calls-reported name now [] = (refl, refl)
calls-reported name now (r ∷ rs) = rw (===_refl name) (ground (arith, calls-reported name now rs))

-- The containers that messages ask an agent to monitor, each with the image to go back to.
abbrev pub monitored : Text → List (Text × Message) → List (Text × Option Text)
monitored a [] = []
monitored a ((b, check ids) ∷ ms) = monitored a ms
monitored a ((b, monitor_health id name duration image) ∷ ms) =
    if b === a then (id, image) ∷ monitored a ms else monitored a ms

-- The containers that messages ask an agent to check.
abbrev pub checked : Text → List (Text × Message) → List Text
checked a [] = []
checked a ((b, check ids) ∷ ms) = if b === a then ids ++ checked a ms else checked a ms
checked a ((b, monitor_health id name duration image) ∷ ms) = checked a ms

monitor-ids :
    (a : Text) (policy : Policy) (rs : List UpdateResultItem)
    → let ms = addressed a (map (monitor policy) rs) in
      (monitored a ms ≡ map (λ r. (r.container_id, r.old_digest)) rs) × (checked a ms ≡ [])
unfolding monitor
monitor-ids a policy [] = (refl, refl)
monitor-ids a policy (r ∷ rs) = ground (arith, ===_refl a, monitor-ids a policy rs)

check_again-ids :
    (a : Text) (rs : List UpdateResultItem)
    → let ms = addressed a (check_again rs) in (monitored a ms ≡ []) × (checked a ms ≡ ids_of rs)
unfolding check_again
check_again-ids a [] = (refl, refl)
check_again-ids a (r ∷ rs) = ground (arith, ===_refl a, append-nil (ids_of (r ∷ rs)))

follow_ups-ids :
    (a : Text) (is_rollback : Bool) (policy : Policy) (rs : List UpdateResultItem)
    → let ms = addressed a (follow_ups is_rollback policy rs) in
      (monitored a ms ≡ (
        if not is_rollback && policy.auto_rollback_enabled
        then map (λ r. (r.container_id, r.old_digest)) (successes rs)
        else []))
      × (checked a ms ≡ (if is_rollback then ids_of (successes rs) else []))
unfolding follow_ups
follow_ups-ids a true policy rs = check_again-ids a (successes rs)
follow_ups-ids a false policy rs = ground (arith, monitor-ids a policy (successes rs))

module _ (agent_id : Text) (name : Option Text) (policy : Policy) (now : ℕ) (p : Payload)
    (s : State) where
  update_result-tells :
      let t = update_result agent_id name policy now p s in
      let u = store_results agent_id (is_rollback_of p) (results_of p) (cleared agent_id s) in
      let told = addressed agent_id (follow_ups (is_rollback_of p) policy (results_of p)) in
      (t.batcher ≡ add_results (or_else name agent_id) now (results_of p) u.batcher)
      × (t.messages ≡ u.messages ++ told)
  unfolding update_result report_rollback
  update_result-tells =
      let u = store_results agent_id (is_rollback_of p) (results_of p) (cleared agent_id s) in
      let told = addressed agent_id (follow_ups (is_rollback_of p) policy (results_of p)) in
      if_cases {A = State}
        (λ t.
          (t.batcher ≡ add_results (or_else name agent_id) now (results_of p) u.batcher)
          × (t.messages ++ told ≡ u.messages ++ told))
        p.auto_rolled_back (refl, refl) (refl, refl)

  update_result-batcher :
      (update_result agent_id name policy now p s).batcher
      ≡ run (calls (or_else name agent_id) now (results_of p)) s.batcher
  update_result-batcher =
      update_result-tells.0
      ∙ add_results-run (or_else name agent_id) now (results_of p) _
      ∙ ap (run (calls (or_else name agent_id) now (results_of p)))
          (store_results-keeps agent_id (is_rollback_of p) (results_of p) (cleared agent_id s)).0

  update_result-messages :
      (update_result agent_id name policy now p s).messages
      ≡ s.messages ++ addressed agent_id (follow_ups (is_rollback_of p) policy (results_of p))
  update_result-messages =
      update_result-tells.1
      ∙ ap (λ m. m ++ addressed agent_id (follow_ups (is_rollback_of p) policy (results_of p)))
          (store_results-keeps agent_id (is_rollback_of p) (results_of p) (cleared agent_id s)).1

  -- From a batcher that any calls have left: once the pending batch is flushed, the notifications
  -- have, for the agent, what those calls reported and then the results of the update, the successful
  -- and the failed ones each in their order and none twice.
  pub update_result-delivers :
      (cs : List Call)
      → s.batcher ≡ run cs initial
      → let a = or_else name agent_id in
        let sent =
          (clear_pending_timers (update_result agent_id name policy now p s).batcher).dispatched in
        (sent_successes a sent
          ≡ reported_successes a cs ++ map success_of (successes (results_of p)))
        × (sent_failures a sent
            ≡ reported_failures a cs ++ map failure_of (failures (results_of p)))
  update_result-delivers cs e =
      let a = or_else name agent_id in
      let more = calls a now (results_of p) in
      let ran = update_result-batcher ∙ ap (run more) e ∙ sym (run-append cs more initial) in
      let (x, y) = run_delivers_all a (cs ++ more) in
      let (u, v) = reported-append a cs more in
      let (z, w) = calls-reported a now (results_of p) in
      (
        rw ran (x ∙ u ∙ ap (λ l. reported_successes a cs ++ l) z),
        rw ran (y ∙ v ∙ ap (λ l. reported_failures a cs ++ l) w),
      )

  -- After an update the agent is asked to monitor the containers that were updated, each with the
  -- image to go back to, where the policy has automatic rollback; after a rollback it is asked for
  -- none, so that a rollback is not rolled back in turn, but to check those that were rolled back.
  pub update_result-follows_up :
      let t = update_result agent_id name policy now p s in
      (ms : List (Text × Message)) × (t.messages ≡ s.messages ++ ms)
      × (monitored agent_id ms ≡ (
          if not (is_rollback_of p) && policy.auto_rollback_enabled
          then map (λ r. (r.container_id, r.old_digest)) (successes (results_of p))
          else []))
      × (checked agent_id ms ≡ (if is_rollback_of p then ids_of (successes (results_of p)) else []))
  update_result-follows_up =
      let (x, y) = follow_ups-ids agent_id (is_rollback_of p) policy (results_of p) in
      (_, update_result-messages, x, y)
