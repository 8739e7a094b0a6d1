-- ===== src/Scheduler/Stopped.antt =====
-- What the calls of the scheduler leave running (controller/src/scheduler/engine.ts).
use watchwarden.Base.{ℕ, Bool, false, Option, none, List, [], ◌∷◌, Text, ◌==◌, any}
use watchwarden.JsMap
use watchwarden.Scheduler.{Scheduler, update_global_schedule, set_agent_schedule_override}

pub data Call : Type 0 where
  global_schedule : (expression : Text) → Call
  schedule_override : (agent_id : Text) (expression : Option Text) → Call

module _ (valid : Text → Bool) where
  unfoldable pub step : Call → Scheduler → Scheduler
  step (global_schedule e) s = (update_global_schedule valid e s).0
  step (schedule_override a e) s = (set_agent_schedule_override valid a e s).0

  unfoldable pub run : List Call → Scheduler → Scheduler
  unfolding step
  run [] s = s
  run (c ∷ cs) s = run cs (step c s)

abbrev among : List ℕ → ℕ → Bool
among ids id = any (λ i. i == id) ids

-- A scheduler that has started nothing.
abbrev pub idle : Scheduler
idle = record {
  next = 0;
  live = [];
  global_task = none;
  agent_tasks = [];
  cleanup_task = none;
  running = false;
  expected = [];
  timeouts = [];
}
