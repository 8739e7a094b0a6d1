-- ===== src/Scheduler/Tests.antt =====
-- The theorems of the scheduler at concrete inputs.
use watchwarden.Base.{
  ◌≡◌, Bool, true, not, some, List, [], ◌∷◌, map, Text, text, ◌===◌, ltb, if◌then◌else◌, length,
  All,
}
use watchwarden.JsMap
use watchwarden.Scheduler.{Scheduler, targets, run_global_check_staggered}
use watchwarden.Scheduler.Stagger.{delays, run_global_check_staggered_lem}
use watchwarden.Scheduler.Stopped.{Call, global_schedule, schedule_override, idle}

-- A stand-in for `cron.validate`.
abbrev valid : Text → Bool
valid e = not (e === text "never")

abbrev calls : List Call
calls =
    global_schedule (text "0 4 * * *")
    ∷ schedule_override (text "a1") (some (text "0 5 * * *"))
    ∷ schedule_override (text "a1") (some (text "never"))
    ∷ []

abbrev two_agents : List Text
two_agents = text "a1" ∷ text "a2" ∷ []

abbrev one_override : Scheduler
one_override = record idle { agent_tasks = (text "a1", 4) ∷ [] }

run_global_check_staggered_lem_test :
    let after =
      run_global_check_staggered two_agents
        (record one_override { expected = []; timeouts = [] }) in
    let n = length after.timeouts in
    (map (λ t. t.1) after.timeouts ≡ targets two_agents one_override)
    × All
        (λ id. not (JsMap.member id (JsMap.keys one_override.agent_tasks)) ≡ true)
        (targets two_agents one_override)
    × (map (λ t. t.0) after.timeouts ≡ delays n 0)
    × (after.expected ≡ (if ltb 0 n then n ∷ [] else []))
run_global_check_staggered_lem_test = run_global_check_staggered_lem two_agents one_override
