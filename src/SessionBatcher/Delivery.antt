-- ===== src/SessionBatcher/Delivery.antt =====
-- Every update result is sent once, in order (controller/src/notifications/session-batcher.ts,
-- addUpdateResult and flushUpdateBatch).
use mathlib.Core.List.{append-nil, append_assoc}
use watchwarden.Base.{
  ℕ, ◌≡◌, refl, sym, ap, ◌∙◌, Option, none, some, List, [], ◌∷◌, ◌++◌, arith, Text, ===_iff,
}
use watchwarden.JsMap
use watchwarden.JsMap.{Map, get-set}
use watchwarden.SessionBatcher.Results.{
  set-Distinct, data_of, sent_successes, sent_failures, pending_data, successes_of, failures_of,
  reported_successes, reported_failures,
}
use watchwarden.SessionBatcher.Steps.{
  BatchIsDistinct, Same, dispatch_check_results-Same, clear_pending_timers-Same,
  expect_check_results-Same, prunes-Same, fire-Same,
}
use watchwarden.SessionBatcher.{
  UpdateResultItem, AgentData, UpdateBatch, Batcher, flush_results, flush_update_batch, open_window,
  add_result, add_update_result, clear_pending_timers, clear_check, Call, adds_update_result,
  expects_check_results, dispatches_check_results, prunes, clears, fires, step, run, initial,
}

-- What a state becomes by a call that reports the given results.
record Grows (a : Text) (c : Call) (s t : Batcher) : Type 0 where
  successes : successes_of a t ≡ successes_of a s ++ reported_successes a (c ∷ [])
  failures : failures_of a t ≡ failures_of a s ++ reported_failures a (c ∷ [])
  distinct : BatchIsDistinct t.update_batch

Same-Grows :
    {a : Text} {c : Call} {s t : Batcher}
    → reported_successes a (c ∷ []) ≡ []
    → reported_failures a (c ∷ []) ≡ []
    → Same a s t
    → Grows a c s t
Same-Grows p q r = record {
  successes = rw p (r.successes ∙ sym (append-nil _));
  failures = rw q (r.failures ∙ sym (append-nil _));
  distinct = r.distinct;
}

data_of-add :
    (a agent_id : Text) (r : UpdateResultItem) (now : ℕ) (m : Map AgentData)
    → let d = data_of a (JsMap.set agent_id (add_result r (data_of agent_id m)) m) in
      (d.successes
        ≡ (data_of a m).successes ++ reported_successes a (adds_update_result agent_id r now ∷ []))
      × (d.failures
          ≡ (data_of a m).failures ++ reported_failures a (adds_update_result agent_id r now ∷ []))
unfolding data_of add_result reported_successes reported_failures
data_of-add a agent_id r now m = ground (
  arith,
  get-set agent_id a (add_result r (data_of agent_id m)) m,
  ===_iff agent_id a,
  append-nil (data_of a m).successes,
  append-nil (data_of a m).failures,
)

-- One result more for its agent, and none for the others.
add_update_result-Grows :
    (a agent_id : Text) (r : UpdateResultItem) (now : ℕ) (s : Batcher) (b : Option UpdateBatch)
    → s.update_batch ≡ b
    → BatchIsDistinct b
    → Grows a (adds_update_result agent_id r now) s (add_update_result agent_id r now s)
unfolding add_update_result successes_of failures_of pending_data data_of open_window JsMap.get
add_update_result-Grows a agent_id r now s none e h = record {
  successes = rw e (
      ap (λ x. sent_successes a s.dispatched ++ x) (data_of-add a agent_id r now []).0
      ∙ sym (append_assoc (sent_successes a s.dispatched) _ _));
  failures = rw e (
      ap (λ x. sent_failures a s.dispatched ++ x) (data_of-add a agent_id r now []).1
      ∙ sym (append_assoc (sent_failures a s.dispatched) _ _));
  distinct = rw e (set-Distinct agent_id _ [] tt);
}
add_update_result-Grows a agent_id r now s (some batch) e h = record {
  successes = rw e (
      ap (λ x. sent_successes a s.dispatched ++ x) (data_of-add a agent_id r now batch.agents).0
      ∙ sym (append_assoc (sent_successes a s.dispatched) _ _));
  failures = rw e (
      ap (λ x. sent_failures a s.dispatched ++ x) (data_of-add a agent_id r now batch.agents).1
      ∙ sym (append_assoc (sent_failures a s.dispatched) _ _));
  distinct = rw e (set-Distinct agent_id _ batch.agents h);
}

step-Grows :
    (a : Text) (c : Call) (s : Batcher) → BatchIsDistinct s.update_batch → Grows a c s (step c s)
unfolding step reported_successes reported_failures
step-Grows a (adds_update_result agent_id r now) s h =
    add_update_result-Grows a agent_id r now s s.update_batch refl h
step-Grows a (expects_check_results count now) s h =
    Same-Grows refl refl (expect_check_results-Same a count now s h)
step-Grows a (dispatches_check_results agent_name cs agent_id now) s h =
    Same-Grows refl refl (dispatch_check_results-Same a agent_name cs agent_id now s h)
step-Grows a (prunes now) s h = Same-Grows refl refl (prunes-Same a now s h)
step-Grows a clears s h = Same-Grows refl refl (clear_pending_timers-Same a s h)
step-Grows a (fires timer) s h = Same-Grows refl refl (fire-Same a timer s h)

reported-cons :
    (a : Text) (c : Call) (cs : List Call)
    → (reported_successes a (c ∷ cs) ≡ reported_successes a (c ∷ []) ++ reported_successes a cs)
      × (reported_failures a (c ∷ cs) ≡ reported_failures a (c ∷ []) ++ reported_failures a cs)
unfolding reported_successes reported_failures
reported-cons a (adds_update_result agent_id r now) cs = ground arith
reported-cons a _ cs = (refl, refl)

run-from :
    (a : Text) (cs : List Call) (s : Batcher)
    → BatchIsDistinct s.update_batch
    → (successes_of a (run cs s) ≡ successes_of a s ++ reported_successes a cs)
      × (failures_of a (run cs s) ≡ failures_of a s ++ reported_failures a cs)
      × BatchIsDistinct (run cs s).update_batch
unfolding run reported_successes reported_failures
run-from a [] s h = (sym (append-nil _), sym (append-nil _), h)
run-from a (c ∷ cs) s h =
    let g = step-Grows a c s h in
    let (p, q, d) = run-from a cs (step c s) g.distinct in
    let (x, y) = reported-cons a c cs in
    (
      rw x (
          p
          ∙ ap (λ z. z ++ reported_successes a cs) g.successes
          ∙ append_assoc (successes_of a s) (reported_successes a (c ∷ []))
              (reported_successes a cs)),
      rw y (
          q
          ∙ ap (λ z. z ++ reported_failures a cs) g.failures
          ∙ append_assoc (failures_of a s) (reported_failures a (c ∷ [])) (reported_failures a cs)),
      d,
    )

-- After any calls from the start, in any order and with timers firing anywhere between them, what
-- the notifications and the pending batch hold for an agent is exactly what was reported for it,
-- successes and failures each in the order of the reports: no result is lost, doubled or changed.
pub run_delivers :
    (a : Text) (cs : List Call)
    → (successes_of a (run cs initial) ≡ reported_successes a cs)
      × (failures_of a (run cs initial) ≡ reported_failures a cs)
unfolding initial successes_of failures_of sent_successes sent_failures pending_data
run_delivers a cs = let (p, q, _) = run-from a cs initial tt in (p, q)

flush_results-none :
    (s : Batcher) (b : Option UpdateBatch)
    → s.update_batch ≡ b
    → (flush_results b s).update_batch ≡ none
unfolding flush_results
flush_results-none s none e = e
flush_results-none s (some batch) e = refl

clear_pending_timers-none : (s : Batcher) → (clear_pending_timers s).update_batch ≡ none
unfolding clear_pending_timers flush_update_batch
clear_pending_timers-none s = flush_results-none (clear_check s.check_batch s) _ refl

sent-eq_all :
    (a : Text) (s : Batcher)
    → s.update_batch ≡ none
    → (sent_successes a s.dispatched ≡ successes_of a s)
      × (sent_failures a s.dispatched ≡ failures_of a s)
unfolding successes_of failures_of pending_data
sent-eq_all a s e =
    ground
      (arith, append-nil (sent_successes a s.dispatched), append-nil (sent_failures a s.dispatched))

-- Once the pending batch is flushed, as at a shutdown, all of it is in the notifications.
pub run_delivers_all :
    (a : Text) (cs : List Call)
    → (sent_successes a (clear_pending_timers (run cs initial)).dispatched
        ≡ reported_successes a cs)
      × (sent_failures a (clear_pending_timers (run cs initial)).dispatched
          ≡ reported_failures a cs)
unfolding initial
run_delivers_all a cs =
    let s = run cs initial in
    let (p, q, distinct) = run-from a cs initial tt in
    let (x, y) = sent-eq_all a (clear_pending_timers s) (clear_pending_timers-none s) in
    let same = clear_pending_timers-Same a s distinct in
    let (u, v) = run_delivers a cs in (x ∙ same.successes ∙ u, y ∙ same.failures ∙ v)

pub run-append : (cs ds : List Call) (s : Batcher) → run (cs ++ ds) s ≡ run ds (run cs s)
unfolding run
run-append [] ds s = refl
run-append (c ∷ cs) ds s = run-append cs ds (step c s)

pub reported-append :
    (a : Text) (cs ds : List Call)
    → (reported_successes a (cs ++ ds) ≡ reported_successes a cs ++ reported_successes a ds)
      × (reported_failures a (cs ++ ds) ≡ reported_failures a cs ++ reported_failures a ds)
unfolding reported_successes reported_failures
reported-append a [] ds = (refl, refl)
reported-append a (adds_update_result agent_id r now ∷ cs) ds =
    ground (arith, reported-append a cs ds)
reported-append a (expects_check_results count now ∷ cs) ds = reported-append a cs ds
reported-append a (dispatches_check_results n xs i now ∷ cs) ds = reported-append a cs ds
reported-append a (prunes now ∷ cs) ds = reported-append a cs ds
reported-append a (clears ∷ cs) ds = reported-append a cs ds
reported-append a (fires timer ∷ cs) ds = reported-append a cs ds
