-- ===== src/Scheduler.antt =====
-- controller/src/scheduler/engine.ts: the tasks of the update checks. `cron` is a parameter: `valid`
-- is `cron.validate`, and `cron.schedule` throws on an expression that is not valid. A task that is
-- not stopped is in `live`. The delays of `setTimeout` are in `timeouts`; the jitter of an agent's
-- task is not modelled.
pub mod Orphans
pub mod Stagger
pub mod Stopped
mod Tests
use watchwarden.Base.{
  ℕ, ◌+◌, ◌-◌, ◌≡◌, Bool, true, false, not, Option, none, some, List, [], ◌∷◌, ◌++◌, Text, text,
  ltb, ◌==◌, if◌then◌else◌, or_else, keep, length, is_empty,
}
use watchwarden.JsMap
use watchwarden.JsMap.{Map}

-- What a task runs.
pub data Job : Type 0 where
  global_check : Job
  agent_check : (agent_id : Text) → Job
  log_retention : Job

pub record Task : Type 0 where
  pub id : ℕ
  pub expression : Text
  pub job : Job

-- `timeouts` are the CHECK messages that are under way, each with its delay; `expected` are the
-- calls of `expectCheckResults`.
pub record Scheduler : Type 0 where
  pub next : ℕ
  pub live : List Task
  pub global_task : Option ℕ
  pub agent_tasks : Map ℕ
  pub cleanup_task : Option ℕ
  pub running : Bool
  pub expected : List ℕ
  pub timeouts : List (ℕ × Text)

abbrev pub default_schedule : Text
default_schedule = text "0 4 * * *"

abbrev pub day_ms : ℕ
day_ms = 86400000

-- `task.stop()`
unfoldable pub stop_task : ℕ → List Task → List Task
stop_task id live = keep (λ t. not (t.id == id)) live

unfoldable pub stop_optional : Option ℕ → List Task → List Task
unfolding stop_task
stop_optional none live = live
stop_optional (some id) live = stop_task id live

-- `cron.schedule`
unfoldable pub schedule : Text → Job → Scheduler → Scheduler
schedule expression job s = record s {
  next = s.next + 1;
  live = s.live ++ record { id = s.next; expression = expression; job = job } ∷ [];
}

unfoldable pub create_global_task : Text → Scheduler → Scheduler
unfolding schedule
create_global_task expression s = record (schedule expression global_check s) {
  global_task = some s.next;
}

unfoldable pub create_agent_task : Text → Text → Scheduler → Scheduler
unfolding schedule
create_agent_task agent_id expression s = record (schedule expression (agent_check agent_id) s) {
  agent_tasks = JsMap.set agent_id s.next s.agent_tasks;
}

unfoldable pub create_cleanup_task : Scheduler → Scheduler
unfolding schedule
create_cleanup_task s = record (schedule (text "0 3 * * *") log_retention s) {
  cleanup_task = some s.next;
}

unfoldable pub stop_global : Scheduler → Scheduler
unfolding stop_optional
stop_global s = record s { live = stop_optional s.global_task s.live }

-- The task of an agent is stopped and forgotten.
unfoldable pub drop_agent_task : Text → Scheduler → Scheduler
unfolding stop_optional
drop_agent_task agent_id s = record s {
  live = stop_optional (JsMap.get agent_id s.agent_tasks) s.live;
  agent_tasks = JsMap.delete agent_id s.agent_tasks;
}

unfoldable pub stop_each : List ℕ → List Task → List Task
unfolding stop_task
stop_each [] live = live
stop_each (id ∷ ids) live = stop_each ids (stop_task id live)

unfoldable pub stop : Scheduler → Scheduler
unfolding stop_optional stop_each
stop s = record s {
  live =
      stop_each (JsMap.values s.agent_tasks)
        (stop_optional s.cleanup_task (stop_optional s.global_task s.live));
  global_task = none;
  agent_tasks = [];
  cleanup_task = none;
  running = false;
}

unfoldable pub targets : List Text → Scheduler → List Text
targets online_ids s = keep (λ id. not (JsMap.member id (JsMap.keys s.agent_tasks))) online_ids

-- The loop, with the delay.
unfoldable pub stagger : ℕ → List Text → List (ℕ × Text)
stagger delay [] = []
stagger delay (id ∷ ids) = (delay, id) ∷ stagger (delay + 2000) ids

unfoldable pub run_global_check_staggered : List Text → Scheduler → Scheduler
unfolding targets stagger
run_global_check_staggered online_ids s =
    let ids = targets online_ids s in
    record s {
      expected = if ltb 0 (length ids) then s.expected ++ length ids ∷ [] else s.expected;
      timeouts = s.timeouts ++ stagger 0 ids;
    }

-- Whether `init` plans a check for a run that was missed.
unfoldable pub catches_up : (check_on_startup : Bool) → (last_run : Option ℕ) → (now : ℕ) → Bool
catches_up false last_run now = false
catches_up true none now = false
catches_up true (some last) now = ltb day_ms (now - last)

module _ (valid : Text → Bool) where
  -- A call that throws returns `false`, with the state that it leaves.
  unfoldable pub update_global_schedule : Text → Scheduler → Scheduler × Bool
  unfolding create_global_task stop_global
  update_global_schedule expression s =
      if not (valid expression)
      then (s, false)
      else (create_global_task expression (stop_global s), true)

  unfoldable pub set_override : Text → Text → Scheduler → Scheduler × Bool
  unfolding create_agent_task
  set_override agent_id expression s =
      if is_empty expression
      then (s, true)
      else if not (valid expression)
      then (s, false)
      else (create_agent_task agent_id expression s, true)

  -- No expression is the empty one.
  unfoldable pub set_agent_schedule_override : Text → Option Text → Scheduler → Scheduler × Bool
  unfolding drop_agent_task set_override
  set_agent_schedule_override agent_id expression s =
      set_override agent_id (or_else expression []) (drop_agent_task agent_id s)

  -- The overrides of the agents that `init` loads; an invalid one throws.
  unfoldable pub load_overrides : List (Text × Option Text) → Scheduler → Scheduler × Bool
  unfolding create_agent_task
  load_overrides [] s = (s, true)
  load_overrides ((agent_id, override) ∷ agents) s =
      let rest = load_overrides agents in
      let expression = or_else override [] in
      if is_empty expression
      then rest s
      else if not (valid expression)
      then (s, false)
      else rest (create_agent_task agent_id expression s)

  unfoldable pub finish_init : Scheduler × Bool → Scheduler × Bool
  unfolding create_cleanup_task
  finish_init (s, ok) = if ok then (create_cleanup_task s, true) else (s, false)

  -- `init`, after the check of a missed run.
  unfoldable pub init : Option Text → List (Text × Option Text) → Scheduler → Scheduler × Bool
  unfolding create_global_task load_overrides finish_init
  init global_schedule agents s =
      let expression = or_else global_schedule default_schedule in
      let chosen = if not (valid expression) then default_schedule else expression in
      finish_init (load_overrides agents (record (create_global_task chosen s) { running = true }))
