-- ===== src/AgentRoutes/Update.antt =====
-- POST /api/agents/:id/update (controller/src/api/routes/agents.ts): the update of an agent's
-- containers, of those that the request names or of all that have one.
pub mod Told
pub mod Refused
pub mod Bulk
use watchwarden.Base.{
  ℕ, Bool, true, false, not, ◌&&◌, Option, none, some, List, [], ◌∷◌, ◌++◌, map, Text, text, ◌===◌,
  if◌then◌else◌, or_else, is_empty, keep,
}
use watchwarden.JsMap
use watchwarden.Orchestrator
use watchwarden.Orchestrator.{Message, execute_orchestrated_update}
use watchwarden.AgentRoutes.Data.{Container, Agent, Reply, bases, join}

-- The hub's marks of updates in flight, and the messages of the orchestrator, each with its agent.
pub record Hub : Type 0 where
  pub auto_update_in_flight : List Text
  pub sent : List (Text × List Message)

unfoldable pub set_update_in_flight : Text → Bool → Hub → Hub
set_update_in_flight agent_id true h = record h {
  auto_update_in_flight = JsMap.add agent_id h.auto_update_in_flight;
}
set_update_in_flight agent_id false h = record h {
  auto_update_in_flight = JsMap.remove agent_id h.auto_update_in_flight;
}

-- `!c.excluded && c.has_update && !c.is_stateful`, and the stateful ones.
unfoldable pub is_updatable : Container → Bool
is_updatable c = not c.excluded && c.has_update && not c.is_stateful

unfoldable pub is_skipped : Container → Bool
is_skipped c = not c.excluded && c.has_update && c.is_stateful

unfoldable pub nothing_to_update : List Container → Reply
unfolding is_skipped join
nothing_to_update containers =
    let skipped = map (λ c. c.base.name) (keep is_skipped containers) in
    record {
      code = 200;
      body =
          if is_empty skipped
          then text "No containers have updates"
          else text "No stateless containers to update (skipped stateful: "
            ++ (join skipped ++ text ")");
    }

abbrev pub initiated : Reply
initiated = record { code = 202; body = text "Update initiated" }

-- The orchestrated update of some ids; `none` only if the orchestrator runs out of fuel.
unfoldable pub execute :
    Text → List Container → List Text → Option Text → Hub → Option (Reply × Hub)
unfolding execute_orchestrated_update
execute agent_id containers container_ids strategy h =
    elim (execute_orchestrated_update (bases containers) container_ids
      (some (or_else strategy (text "stop-first")))) [
        | none ↦ none
        | some ms ↦ some (initiated, record h { sent = h.sent ++ (agent_id, ms) ∷ [] })
      ]

-- "All containers with updates"
unfoldable pub update_all : Text → List Container → Option Text → Hub → Option (Reply × Hub)
unfolding is_updatable nothing_to_update set_update_in_flight execute
update_all agent_id containers strategy h =
    let all_ids = map (λ c. c.base.docker_id) (keep is_updatable containers) in
    if is_empty all_ids
    then some (nothing_to_update containers, set_update_in_flight agent_id false h)
    else execute agent_id containers all_ids strategy h

-- `containerIds?.length`
unfoldable pub update_some :
    Text → List Container → List Text → Option Text → Hub → Option (Reply × Hub)
unfolding update_all execute
update_some agent_id containers container_ids strategy h =
    if is_empty container_ids
    then update_all agent_id containers strategy h
    else execute agent_id containers container_ids strategy h

-- The request, for the agent that the database finds, if any; `container_ids` are empty if the body
-- has none.
unfoldable pub update :
    Option Agent → List Container → List Text → Option Text → Hub → Option (Reply × Hub)
unfolding update_some set_update_in_flight
update none containers container_ids strategy h =
    some (record { code = 404; body = text "Agent not found" }, h)
update (some agent) containers container_ids strategy h =
    if not (agent.status === text "online")
    then some (record { code = 409; body = text "Agent is not online" }, h)
    else if JsMap.member agent.id h.auto_update_in_flight
    then some (record { code = 409; body = text "Update already in progress for this agent" }, h)
    else update_some agent.id containers container_ids strategy
        (set_update_in_flight agent.id true h)
