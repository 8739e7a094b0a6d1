-- ===== src/SessionBatcher.antt =====
-- controller/src/notifications/session-batcher.ts: update results and check results are gathered in
-- windows and sent as one notification each. The module's variables are a record, a pending timer
-- is one of `timers`, and `notifier.dispatch` appends to `dispatched` (it fails only into the log).
-- `Date.now()` is the argument `now` of each call, in milliseconds; log lines are left out.
mod Data
pub use Data.*
pub mod Results
pub mod Steps
pub mod Delivery
pub mod Dedup
pub mod Overwrite
mod Tests
use watchwarden.Base.{
  ℕ, ◌+◌, ◌-◌, ◌*◌, Bool, true, false, not, ◌&&◌, Option, none, some, List, [], ◌∷◌, ◌++◌, Text,
  is_truthy, text, ltb, leb, if◌then◌else◌, or_else, is_empty, keep, length, drop,
}
use watchwarden.JsMap
use watchwarden.JsMap.{Map}
use watchwarden.Timers.{Timer, Timers, set_timeout, clear_timeout}

-- The agents of a batch that have successes, and those that have failures.
unfoldable pub succ_agents : Map AgentData → List (Text × List Success)
succ_agents [] = []
succ_agents ((agent_name, d) ∷ m) =
    if is_empty d.successes then succ_agents m else (agent_name, d.successes) ∷ succ_agents m

unfoldable pub fail_agents : Map AgentData → List (Text × List Failure)
fail_agents [] = []
fail_agents ((agent_name, d) ∷ m) =
    if is_empty d.failures then fail_agents m else (agent_name, d.failures) ∷ fail_agents m

-- The notifications that a batch of results becomes.
unfoldable pub update_events : Map AgentData → List Event
unfolding succ_agents fail_agents
update_events agents =
    (if is_empty (succ_agents agents) then [] else update_success (succ_agents agents) ∷ [])
    ++ (if is_empty (fail_agents agents) then [] else update_failed (fail_agents agents) ∷ [])

flush_results : Option UpdateBatch → Batcher → Batcher
unfolding clear_timeout
flush_results none s = s
flush_results (some batch) s = record s {
  update_batch = none;
  timers = clear_timeout batch.max_timer (clear_timeout batch.timer s.timers);
  dispatched = s.dispatched ++ update_events batch.agents;
}

unfoldable pub flush_update_batch : Batcher → Batcher
unfolding flush_results
flush_update_batch s = flush_results s.update_batch s

-- The batch with its sliding window restarted, and the timers that go with it.
open_window : Option UpdateBatch → ℕ → Timers Callback → UpdateBatch × Timers Callback
unfolding set_timeout clear_timeout
open_window none now t = (
  record { agents = []; timer = t.next + 1; max_timer = t.next },
  set_timeout flush_update (now + update_batch_window_ms)
      (set_timeout flush_update (now + update_batch_max_wait_ms) t),
)
open_window (some batch) now t = (
  record batch { timer = t.next },
  set_timeout flush_update (now + update_batch_window_ms) (clear_timeout batch.timer t),
)

no_results : AgentData
no_results = record { successes = []; failures = [] }

-- The data of an agent with one result more.
add_result : UpdateResultItem → AgentData → AgentData
add_result r d =
    if r.success
    then record d {
      successes =
          d.successes
          ++ record {
            name = r.container_name;
            image = or_else r.image [];
            duration_ms = r.duration_ms;
          }
            ∷ [];
    }
    else record d {
      failures =
          d.failures
          ++ record { name = r.container_name; error = or_else r.error (text "unknown") } ∷ [];
    }

unfoldable pub add_update_result : Text → UpdateResultItem → ℕ → Batcher → Batcher
unfolding open_window no_results add_result
add_update_result agent_id r now s =
    let (batch, timers) = open_window s.update_batch now s.timers in
    let agent_data = or_else (JsMap.get agent_id batch.agents) no_results in
    record s {
      update_batch =
          some
            (record batch { agents = JsMap.set agent_id (add_result r agent_data) batch.agents });
      timers = timers;
    }

-- `now - ts > DEDUP_TTL_MS`, where a `ts` in the future gives a negative difference.
unfoldable pub is_stale : ℕ → Text × ℕ → Bool
is_stale now (key, ts) = ltb (ts + dedup_ttl_ms) now

unfoldable pub prune_notified : ℕ → Map ℕ → Map ℕ
unfolding is_stale
prune_notified now m =
    let kept = keep (λ e. not (is_stale now e)) m in drop (length kept - max_dedup_entries) kept

-- The three ways out of a flush: nothing pending, all deduplicated, or a notification.
check_events : Option CheckBatch → List Event
check_events none = []
check_events (some batch) =
    let agents = keep (λ a. not (is_empty a.containers)) batch.agents in
    if is_empty agents then [] else update_available agents ∷ []

unfoldable pub flush_check_batch : Batcher → Batcher
unfolding check_events
flush_check_batch s = record s {
  check_batch = none;
  dispatched = s.dispatched ++ check_events s.check_batch;
}

-- `if (pendingCheckBatch) clearTimeout(pendingCheckBatch.timer)`
clear_check_timer : Option CheckBatch → Timers Callback → Timers Callback
unfolding clear_timeout
clear_check_timer none t = t
clear_check_timer (some batch) t = clear_timeout batch.timer t

unfoldable pub expect_check_results : ℕ → ℕ → Batcher → Batcher
unfolding clear_check_timer set_timeout
expect_check_results count now s =
    let cleared = clear_check_timer s.check_batch s.timers in
    record s {
      check_batch = some (record {
        agents = [];
        received_agent_ids = [];
        expected_agent_count = count;
        timer = cleared.next;
      });
      timers = set_timeout flush_check (now + check_batch_max_wait_ms) cleared;
    }

-- The key under which a container is remembered.
unfoldable pub dedup_key : Text → Text → Text
dedup_key agent name = agent ++ b':' ∷ name

-- The filter with its side effect: the containers not yet notified, and the keys after it.
unfoldable pub dedup : Text → ℕ → List Container → Map ℕ → List Container × Map ℕ
unfolding dedup_key
dedup agent now [] seen = ([], seen)
dedup agent now (c ∷ cs) seen = elim (JsMap.get (dedup_key agent c.name) seen) [
  | some _ ↦ dedup agent now cs seen
  | none ↦
      let (fresh, seen') = dedup agent now cs (JsMap.set (dedup_key agent c.name) now seen) in
      (c ∷ fresh, seen')
]

mark_received : Option Text → List Text → List Text
mark_received none ids = ids
mark_received (some id) ids = if is_empty id then ids else JsMap.add id ids

-- "If we've heard from all expected agents, flush immediately."
flush_if_complete : CheckBatch → Batcher → Batcher
unfolding flush_check_batch clear_timeout
flush_if_complete batch s =
    if ltb 0 batch.expected_agent_count
      && leb batch.expected_agent_count (length batch.received_agent_ids)
    then flush_check_batch (record s { timers = clear_timeout batch.timer s.timers })
    else s

-- An agent that reports no update still counts as having answered.
count_response : Option CheckBatch → Option Text → Batcher → Batcher
unfolding mark_received flush_if_complete
count_response none agent_id s = s
count_response (some batch) agent_id s =
    let batch' = record batch {
      received_agent_ids = mark_received agent_id batch.received_agent_ids;
    } in
    if is_truthy agent_id
    then flush_if_complete batch' (record s { check_batch = some batch' })
    else s

-- The batch that takes the report, with its sliding window restarted if no count is expected.
check_window : Option CheckBatch → ℕ → Timers Callback → CheckBatch × Timers Callback
unfolding set_timeout clear_timeout
check_window none now t = (
  record { agents = []; received_agent_ids = []; expected_agent_count = 0; timer = t.next },
  set_timeout flush_check (now + check_batch_window_ms) t,
)
check_window (some batch) now t = if ltb 0 batch.expected_agent_count then (batch, t) else (
  record batch { timer = t.next },
  set_timeout flush_check (now + check_batch_window_ms) (clear_timeout batch.timer t),
)

-- One report added to a batch.
add_report : Text → List Container → Option Text → CheckBatch → CheckBatch
unfolding mark_received
add_report agent_name fresh agent_id batch = record batch {
  agents =
      if is_empty fresh
      then batch.agents
      else batch.agents ++ record { agent_name = agent_name; containers = fresh } ∷ [];
  received_agent_ids = mark_received agent_id batch.received_agent_ids;
}

unfoldable pub dispatch_check_results : Text → List Container → Option Text → ℕ → Batcher → Batcher
unfolding prune_notified count_response check_window add_report flush_if_complete
dispatch_check_results agent_name [] agent_id now s = count_response s.check_batch agent_id s
dispatch_check_results agent_name (c ∷ cs) agent_id now s =
    let (fresh, seen) =
      dedup (or_else agent_id agent_name) now (c ∷ cs) (prune_notified now s.notified_updates) in
    let (window, timers) = check_window s.check_batch now s.timers in
    let batch = add_report agent_name fresh agent_id window in
    flush_if_complete batch
      (record s { check_batch = some batch; notified_updates = seen; timers = timers })

-- "flush before discarding"
clear_check : Option CheckBatch → Batcher → Batcher
unfolding flush_check_batch clear_timeout
clear_check none s = s
clear_check (some batch) s =
    flush_check_batch (record s { timers = clear_timeout batch.timer s.timers })

unfoldable pub clear_pending_timers : Batcher → Batcher
unfolding clear_check flush_update_batch
clear_pending_timers s = flush_update_batch (clear_check s.check_batch s)

-- One entry of the module, with its arguments.
pub data Call : Type 0 where
  adds_update_result : (agent_id : Text) → UpdateResultItem → (now : ℕ) → Call
  expects_check_results : (count now : ℕ) → Call
  dispatches_check_results :
      (agent_name : Text) → List Container → (agent_id : Option Text) → (now : ℕ) → Call
  prunes : (now : ℕ) → Call
  clears : Call
  fires : Timer Callback → Call

-- A timer fires: it is no longer pending, and its callback runs.
run_callback : Callback → Batcher → Batcher
unfolding flush_update_batch flush_check_batch
run_callback flush_update s = flush_update_batch s
run_callback flush_check s = flush_check_batch s

unfoldable pub fire : Timer Callback → Batcher → Batcher
unfolding run_callback clear_timeout
fire timer s = run_callback timer.callback (record s { timers = clear_timeout timer.id s.timers })

unfoldable pub step : Call → Batcher → Batcher
unfolding add_update_result expect_check_results dispatch_check_results clear_pending_timers fire
step (adds_update_result agent_id r now) s = add_update_result agent_id r now s
step (expects_check_results count now) s = expect_check_results count now s
step (dispatches_check_results agent_name cs agent_id now) s =
    dispatch_check_results agent_name cs agent_id now s
step (prunes now) s = record s { notified_updates = prune_notified now s.notified_updates }
step clears s = clear_pending_timers s
step (fires timer) s = fire timer s

unfoldable pub run : List Call → Batcher → Batcher
unfolding step
run [] s = s
run (c ∷ cs) s = run cs (step c s)

unfoldable pub initial : Batcher
initial = record {
  update_batch = none;
  check_batch = none;
  notified_updates = [];
  timers = record { next = 0; live = [] };
  dispatched = [];
}
