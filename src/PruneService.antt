-- ===== src/PruneService.antt =====
-- controller/src/ws/prune-service.ts: image pruning, one agent at a time or all agents in turn. The
-- service's fields are a record; a prune that waits for its agent's reply is an `Execution` that
-- `settle` resumes, and a "prune all" run is the loop that hangs under it. Identifiers, times, the
-- agents of the database and the agents that the hub has online are arguments. `broadcast` appends
-- to `events`; it is taken not to throw.
pub mod Data
pub mod Options
pub mod Exclusion
pub mod Runs
mod Tests
use watchwarden.Base.{
  ◌≡◌, ℕ, zero, suc, ◌+◌, Bool, true, false, not, ◌&&◌, ◌||◌, Option, none, some, List, [], ◌∷◌,
  ◌++◌, Text, text, ◌===◌, leb, ltb, ◌==◌, if◌then◌else◌, or_else, is_empty, length, map,
}
use watchwarden.JsMap
use watchwarden.JsMap.{Map}
use Data.{
  PruneOptions, Result, ok, err, Value, undefined, natural, other_number, boolean, other, Agent,
  Status, success, partial, failed, skipped, PruneAgentOutcome, Totals, PruneRunSummary,
  PruneResultPayload, Reply, resolved, rejected, Event, prune_started, prune_complete, run_progress,
  run_complete, Loop, Execution, Service,
}

abbrev pub max_keep_previous : ℕ
max_keep_previous = 10

-- `body.keepPrevious`, checked; it is 1 if it is missing.
keep_of : Value → Option ℕ
keep_of undefined = some 1
keep_of (natural n) = if ltb max_keep_previous n then none else some n
keep_of _ = none

-- A flag, checked.
flag_of : Value → Option Bool
flag_of undefined = some false
flag_of (boolean b) = some b
flag_of _ = none

options_of : Option ℕ → Option Bool → Option Bool → Result PruneOptions
options_of (some keep) (some dry) (some stopped) =
    ok (record { keep_previous = keep; dry_run = dry; include_stopped = stopped })
options_of _ _ _ = err 400

unfoldable pub parse_prune_options : Value → Value → Value → Result PruneOptions
unfolding keep_of flag_of options_of
parse_prune_options keep_previous dry_run include_stopped =
    options_of (keep_of keep_previous) (flag_of dry_run) (flag_of include_stopped)

empty_outcome : Agent → Status → Text → PruneAgentOutcome
empty_outcome agent status error = record {
  agent_id = agent.id;
  agent_name = agent.name;
  status = status;
  images_removed = 0;
  containers_removed = 0;
  space_reclaimed = 0;
  errors = [];
  error = some error;
}

status_of : List Text → ℕ → Status
status_of [] removed = success
status_of (_ ∷ _) removed = if ltb 0 removed then partial else failed

unfoldable pub outcome_of : Agent → Reply → PruneAgentOutcome
unfolding empty_outcome status_of
outcome_of agent (rejected message) = empty_outcome agent failed message
outcome_of agent (resolved r) =
    let errors = or_else r.errors [] in
    let removed = or_else r.images_removed 0 + or_else r.containers_removed 0 in
    record {
      agent_id = agent.id;
      agent_name = agent.name;
      status = status_of errors removed;
      images_removed = or_else r.images_removed 0;
      containers_removed = or_else r.containers_removed 0;
      space_reclaimed = or_else r.space_reclaimed 0;
      errors = errors;
      error = none;
    }

-- `execute`, up to its wait. The agent is already marked active.
begin : Agent → PruneOptions → Text → Option Loop → Service → Service
begin agent opts request_id loop s = record s {
  executions =
      s.executions
      ++ record { agent = agent; opts = opts; request_id = request_id; loop = loop } ∷ [];
  legacy = JsMap.set agent.id request_id s.legacy;
  events = s.events ++ prune_started agent.id opts.dry_run ∷ [];
}

-- The agent as `requireOnlineAgent` returns it; `row` is the database's answer.
require_online_agent : Option Agent → List Text → Result Agent
require_online_agent none online_ids = err 404
require_online_agent (some agent) online_ids =
    if not agent.is_online || not (JsMap.member agent.id online_ids) then err 409 else ok agent

start_on : Result Agent → PruneOptions → Text → Service → Result Service
unfolding begin
start_on (err code) opts request_id s = err code
start_on (ok agent) opts request_id s =
    if JsMap.member agent.id s.active
    then err 409
    else ok (begin agent opts request_id none (record s { active = JsMap.add agent.id s.active }))

unfoldable pub start_prune :
    Option Agent → List Text → PruneOptions → Text → Service → Result Service
unfolding require_online_agent start_on
start_prune row online_ids opts request_id s =
    start_on (require_online_agent row online_ids) opts request_id s

count_if : Bool → ℕ
count_if b = if b then 1 else 0

is_failed : Status → Bool
is_failed failed = true
is_failed _ = false

is_skipped : Status → Bool
is_skipped skipped = true
is_skipped _ = false

-- `summary.results.push(outcome)`, and the totals.
unfoldable pub add_outcome : PruneAgentOutcome → PruneRunSummary → PruneRunSummary
unfolding count_if is_failed is_skipped
add_outcome o m = record m {
  results = m.results ++ o ∷ [];
  totals = record m.totals {
    images_removed = m.totals.images_removed + o.images_removed;
    containers_removed = m.totals.containers_removed + o.containers_removed;
    space_reclaimed = m.totals.space_reclaimed + o.space_reclaimed;
    failed = m.totals.failed + count_if (is_failed o.status);
    skipped = m.totals.skipped + count_if (is_skipped o.status);
  };
}

abbrev emit : Event → Service → Service
emit e s = record s { events = s.events ++ e ∷ [] }

progress : PruneRunSummary → ℕ → Agent → Option Status → Event
progress m index agent state = run_progress m.run_id index m.totals.agents agent.id state

-- The `finally` of the run.
finish_run : PruneRunSummary → Service → Service
finish_run m s =
    let done = record m { is_running = false } in
    emit (run_complete done) (record s { runs = JsMap.set m.run_id done s.runs })

-- The rounds of the run from an agent on, up to the next wait or the end.
run_agents : PruneOptions → List Text → Text → ℕ → List Agent → PruneRunSummary → Service → Service
unfolding empty_outcome begin add_outcome progress finish_run
run_agents opts online request_id index [] m s = finish_run m s
run_agents opts online request_id index (agent ∷ rest) m s =
    let skip = add_outcome (empty_outcome agent skipped (text "Agent is offline")) m in
    let busy =
      add_outcome (empty_outcome agent failed (text "A prune is already running on this agent"))
        m in
    let after_skip = run_agents opts online request_id (index + 1) rest skip (
      emit (progress m index agent (some skipped))
        (record s { runs = JsMap.set m.run_id skip s.runs })) in
    let after_busy = run_agents opts online request_id (index + 1) rest busy (
      emit (progress m index agent (some failed))
        (record s { runs = JsMap.set m.run_id busy s.runs })) in
    if not (JsMap.member agent.id online)
    then after_skip
    else if JsMap.member agent.id s.active
    then after_busy
    else begin agent opts request_id
        (some (record { summary = m; index = index; remaining = rest; online = online }))
        (emit (progress m index agent none) (record s { active = JsMap.add agent.id s.active }))

-- The guard of `startRun`, before it reads the agents.
run_is_running : Option PruneRunSummary → Bool
run_is_running none = false
run_is_running (some m) = m.is_running

current_run : Option Text → Map PruneRunSummary → Option PruneRunSummary
current_run none runs = none
current_run (some id) runs = JsMap.get id runs

unfoldable pub get_run : Service → Option PruneRunSummary
unfolding current_run
get_run s = current_run s.run s.runs

unfoldable pub check_run : Service → Result (Unit {0})
unfolding get_run run_is_running
check_run s = if run_is_running (get_run s) then err 409 else ok tt

new_summary : Text → Bool → ℕ → ℕ → PruneRunSummary
new_summary run_id dry_run started_at agents = record {
  run_id = run_id;
  dry_run = dry_run;
  is_running = true;
  started_at = started_at;
  results = [];
  totals = record {
    agents = agents;
    images_removed = 0;
    containers_removed = 0;
    space_reclaimed = 0;
    failed = 0;
    skipped = 0;
  };
}

-- The rest of `startRun`, once the agents are read: another call may have come in between.
unfoldable pub commit_run :
    PruneOptions → (run_id request_id : Text) → ℕ → List Agent → List Text → Service → Service
unfolding new_summary run_agents
commit_run opts run_id request_id now agents online s =
    let summary = new_summary run_id opts.dry_run now (length agents) in
    run_agents opts online request_id 0 agents summary
      (record s { run = some run_id; runs = JsMap.set run_id summary s.runs })

-- The run goes on after an agent's outcome.
resume : Option Loop → Execution → PruneAgentOutcome → Text → Service → Service
unfolding add_outcome progress run_agents
resume none e outcome request_id s = s
resume (some l) e outcome request_id s =
    let m = add_outcome outcome l.summary in
    run_agents e.opts l.online request_id (l.index + 1) l.remaining m (
      emit (progress l.summary l.index e.agent (some outcome.status))
        (record s { runs = JsMap.set m.run_id m s.runs }))

-- The rest of `execute`, from the agent's reply on.
finish : Execution → Reply → Text → Service → Service
unfolding outcome_of resume
finish e reply request_id s =
    let outcome = outcome_of e.agent reply in
    resume e.loop e outcome request_id (record s {
      active = JsMap.remove e.agent.id s.active;
      legacy = JsMap.delete e.agent.id s.legacy;
      events = s.events ++ prune_complete e.opts.dry_run outcome ∷ [];
    })

-- The execution at a place, and the others.
unfoldable pub take_out : ℕ → List Execution → Option (Execution × List Execution)
take_out i [] = none
take_out zero (e ∷ es) = some (e, es)
take_out (suc i) (e ∷ es) = elim (take_out i es) [
  | none ↦ none
  | some (x, rest) ↦ some (x, e ∷ rest)
]

settle_found : Option (Execution × List Execution) → Reply → Text → Service → Service
unfolding finish
settle_found none reply request_id s = s
settle_found (some (e, rest)) reply request_id s =
    finish e reply request_id (record s { executions = rest })

-- The reply to one of the waiting executions arrives, or its wait fails.
unfoldable pub settle : ℕ → Reply → Text → Service → Service
unfolding take_out settle_found
settle i reply request_id s = settle_found (take_out i s.executions) reply request_id s

-- The service before any call.
unfoldable pub initial : Service
initial = record { active = []; run = none; runs = []; executions = []; legacy = []; events = [] }

-- What can happen between two waits: a prune is accepted, a run whose guard has passed begins, or
-- an agent's reply comes in.
pub data Step (s : Service) : Service → Type 0 where
  starts :
      (row : Option Agent) (online_ids : List Text) (opts : PruneOptions) (request_id : Text)
      {t : Service}
      → start_prune row online_ids opts request_id s ≡ ok t
      → Step s t
  commits :
      (opts : PruneOptions) (run_id request_id : Text) (now : ℕ) (agents : List Agent)
      (online : List Text)
      → Step s (commit_run opts run_id request_id now agents online s)
  settles : (i : ℕ) (reply : Reply) (request_id : Text) → Step s (settle i reply request_id s)

pub data Reachable : Service → Type 0 where
  here : Reachable initial
  next : {s t : Service} → Reachable s → Step s t → Reachable t
