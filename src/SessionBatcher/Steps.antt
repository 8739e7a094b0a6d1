-- ===== src/SessionBatcher/Steps.antt =====
-- No call but a new update result changes what is held for an agent (controller/src/notifications/session-batcher.ts,
-- addUpdateResult and flushUpdateBatch).
use mathlib.Core.List.{append-nil}
use watchwarden.Base.{
  ltb, leb, length, if_cases, ℕ, ◌≡◌, refl, ap, ◌∙◌, ◌&&◌, Option, none, some, List, [], ◌∷◌, ◌++◌,
  arith, Text, or_else, is_truthy,
}
use watchwarden.Timers.{Timer, clear_timeout}
use watchwarden.SessionBatcher.Results.{
  Distinct, data_of, sent_successes, sent_failures, pending_data, successes_of, failures_of,
  sent_successes-append, sent_failures-append, sent_successes-update_events,
  sent_failures-update_events,
}
use watchwarden.SessionBatcher.{
  mark_received, dedup, prune_notified, check_window, add_report, UpdateBatch, CheckBatch,
  Container, Batcher, update_events, flush_results, flush_update_batch, flush_check_batch,
  check_events, expect_check_results, flush_if_complete, count_response, dispatch_check_results,
  clear_pending_timers, clear_check, run_callback, fire, Callback, prunes, step, flush_update,
  flush_check,
}

-- The keys of the pending batch are distinct, as those of a `Map` are.
abbrev pub BatchIsDistinct : Option UpdateBatch → Type 0
BatchIsDistinct none = Unit
BatchIsDistinct (some batch) = Distinct batch.agents

-- What a state keeps when only other things change.
pub record Same (a : Text) (s t : Batcher) : Type 0 where
  pub successes : successes_of a t ≡ successes_of a s
  pub failures : failures_of a t ≡ failures_of a s
  pub distinct : BatchIsDistinct t.update_batch

flush_results-Same :
    (a : Text) (b : Option UpdateBatch) (s : Batcher)
    → s.update_batch ≡ b
    → BatchIsDistinct b
    → Same a s (flush_results b s)
unfolding flush_results successes_of failures_of pending_data
flush_results-Same a none s e h = record { successes = refl; failures = refl; distinct = rw e tt }
flush_results-Same a (some batch) s e h = record {
  successes =
      rw (e, sent_successes-append a s.dispatched (update_events batch.agents))
        (ground (
          arith,
          sent_successes-update_events a batch.agents h,
          append-nil (sent_successes a s.dispatched ++ (data_of a batch.agents).successes),
        ));
  failures =
      rw (e, sent_failures-append a s.dispatched (update_events batch.agents))
        (ground (
          arith,
          sent_failures-update_events a batch.agents h,
          append-nil (sent_failures a s.dispatched ++ (data_of a batch.agents).failures),
        ));
  distinct = tt;
}

-- A check notification holds no update results.
check_events-none :
    (a : Text) (b : Option CheckBatch)
    → (sent_successes a (check_events b) ≡ []) × (sent_failures a (check_events b) ≡ [])
unfolding check_events sent_successes sent_failures
check_events-none a none = (refl, refl)
check_events-none a (some batch) = ground arith

flush_check-Same :
    (a : Text) (s : Batcher) → BatchIsDistinct s.update_batch → Same a s (flush_check_batch s)
unfolding flush_check_batch successes_of failures_of
flush_check-Same a s h =
    let (p, q) = check_events-none a s.check_batch in
    record {
      successes =
          ap (λ x. x ++ (pending_data a s.update_batch).successes)
            (sent_successes-append a s.dispatched _
              ∙ ap (λ x. sent_successes a s.dispatched ++ x) p
              ∙ append-nil _);
      failures =
          ap (λ x. x ++ (pending_data a s.update_batch).failures)
            (sent_failures-append a s.dispatched _
              ∙ ap (λ x. sent_failures a s.dispatched ++ x) q
              ∙ append-nil _);
      distinct = h;
    }

flush_if_complete-Same :
    (a : Text) (batch : CheckBatch) (s : Batcher)
    → BatchIsDistinct s.update_batch
    → Same a s (flush_if_complete batch s)
unfolding flush_if_complete successes_of failures_of
flush_if_complete-Same a batch s h =
    if_cases (Same a s)
      (ltb 0 batch.expected_agent_count
        && leb batch.expected_agent_count (length batch.received_agent_ids))
      (let r = flush_check-Same a (record s { timers = clear_timeout batch.timer s.timers }) h in
        record { successes = r.successes; failures = r.failures; distinct = r.distinct })
      (record { successes = refl; failures = refl; distinct = h })

count_response-Same :
    (a : Text) (b : Option CheckBatch) (agent_id : Option Text) (s : Batcher)
    → BatchIsDistinct s.update_batch
    → Same a s (count_response b agent_id s)
unfolding count_response successes_of failures_of
count_response-Same a none agent_id s h = record { successes = refl; failures = refl; distinct = h }
count_response-Same a (some batch) agent_id s h =
    let batch' = record batch {
      received_agent_ids = mark_received agent_id batch.received_agent_ids;
    } in
    if_cases (Same a s) (is_truthy agent_id)
      (let r = flush_if_complete-Same a batch' (record s { check_batch = some batch' }) h in
        record { successes = r.successes; failures = r.failures; distinct = r.distinct })
      (record { successes = refl; failures = refl; distinct = h })

pub dispatch_check_results-Same :
    (a agent_name : Text) (cs : List Container) (agent_id : Option Text) (now : ℕ) (s : Batcher)
    → BatchIsDistinct s.update_batch
    → Same a s (dispatch_check_results agent_name cs agent_id now s)
unfolding dispatch_check_results successes_of failures_of
dispatch_check_results-Same a agent_name [] agent_id now s h =
    count_response-Same a s.check_batch agent_id s h
dispatch_check_results-Same a agent_name (c ∷ cs) agent_id now s h =
    let (fresh, seen) =
      dedup (or_else agent_id agent_name) now (c ∷ cs) (prune_notified now s.notified_updates) in
    let (window, timers) = check_window s.check_batch now s.timers in
    let batch = add_report agent_name fresh agent_id window in
    let r =
      flush_if_complete-Same a batch
        (record s { check_batch = some batch; notified_updates = seen; timers = timers }) h in
    record { successes = r.successes; failures = r.failures; distinct = r.distinct }

clear_check-Same :
    (a : Text) (b : Option CheckBatch) (s : Batcher)
    → BatchIsDistinct s.update_batch
    → Same a s (clear_check b s)
unfolding clear_check successes_of failures_of
clear_check-Same a none s h = record { successes = refl; failures = refl; distinct = h }
clear_check-Same a (some batch) s h =
    let r = flush_check-Same a (record s { timers = clear_timeout batch.timer s.timers }) h in
    record { successes = r.successes; failures = r.failures; distinct = r.distinct }

pub clear_pending_timers-Same :
    (a : Text) (s : Batcher) → BatchIsDistinct s.update_batch → Same a s (clear_pending_timers s)
unfolding clear_pending_timers flush_update_batch
clear_pending_timers-Same a s h =
    let p = clear_check-Same a s.check_batch s h in
    let checked = clear_check s.check_batch s in
    let q = flush_results-Same a checked.update_batch checked refl p.distinct in
    record {
      successes = q.successes ∙ p.successes;
      failures = q.failures ∙ p.failures;
      distinct = q.distinct;
    }

pub expect_check_results-Same :
    (a : Text) (count now : ℕ) (s : Batcher)
    → BatchIsDistinct s.update_batch
    → Same a s (expect_check_results count now s)
unfolding expect_check_results successes_of failures_of
expect_check_results-Same a count now s h = record {
  successes = refl;
  failures = refl;
  distinct = h;
}

pub prunes-Same :
    (a : Text) (now : ℕ) (s : Batcher)
    → BatchIsDistinct s.update_batch
    → Same a s (step (prunes now) s)
unfolding step successes_of failures_of
prunes-Same a now s h = record { successes = refl; failures = refl; distinct = h }

run_callback-Same :
    (a : Text) (c : Callback) (s : Batcher)
    → BatchIsDistinct s.update_batch
    → Same a s (run_callback c s)
unfolding run_callback flush_update_batch
run_callback-Same a flush_update s h = flush_results-Same a s.update_batch s refl h
run_callback-Same a flush_check s h = flush_check-Same a s h

pub fire-Same :
    (a : Text) (timer : Timer Callback) (s : Batcher)
    → BatchIsDistinct s.update_batch
    → Same a s (fire timer s)
unfolding fire successes_of failures_of
fire-Same a timer s h =
    let r =
      run_callback-Same a timer.callback (record s { timers = clear_timeout timer.id s.timers })
        h in
    record { successes = r.successes; failures = r.failures; distinct = r.distinct }
