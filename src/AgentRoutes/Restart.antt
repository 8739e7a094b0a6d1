-- ===== src/AgentRoutes/Restart.antt =====
-- POST /api/agents/:id/restart-unhealthy (controller/src/api/routes/agents.ts): the containers that are
-- unhealthy or restarting are restarted, behind those that they depend on.
pub mod Covered
use watchwarden.Base.{
  ℕ, Bool, true, false, not, ◌||◌, Option, none, some, List, [], ◌∷◌, ◌++◌, map, Text, text,
  decimal, ◌===◌, if◌then◌else◌, is_empty, is_truthy, or_else, keep, length,
}
use watchwarden.JsMap
use watchwarden.JsMap.{Map}
use watchwarden.Orchestrator
use watchwarden.Orchestrator.{UpdateBatch, dependencies, resolve_update_batches}
use watchwarden.AgentRoutes.Data.{Container, Agent, Reply, bases}

-- A batch of a message RESTART_UNHEALTHY.
pub record RestartBatch : Type 0 where
  pub container_ids : List Text
  pub wait_for_healthy : Bool
  pub health_timeout : ℕ

unfoldable pub is_unhealthy : Container → Bool
is_unhealthy c = or_else c.health_status [] === text "unhealthy" || c.status === text "restarting"

unfoldable pub unhealthy_ids : List Container → List Text
unfolding is_unhealthy
unhealthy_ids containers =
    JsMap.unique_from [] (map (λ c. c.base.docker_id) (keep is_unhealthy containers))

-- `new Map(…)` of the names and docker ids.
unfoldable pub name_to_id_from : Map Text → List Container → Map Text
name_to_id_from m [] = m
name_to_id_from m (c ∷ cs) = name_to_id_from (JsMap.set c.base.name c.base.docker_id m) cs

unfoldable pub name_to_id : List Container → Map Text
unfolding name_to_id_from
name_to_id = name_to_id_from []

unfoldable pub add_dependencies : Map Text → List Text → List Text → List Text
add_dependencies m [] expanded = expanded
add_dependencies m (n ∷ ns) expanded =
    let id = JsMap.get n m in
    add_dependencies m ns (if is_truthy id then JsMap.add (or_else id []) expanded else expanded)

-- The loop over all containers.
unfoldable pub expand : Map Text → (unhealthy : List Text) → List Container → List Text → List Text
unfolding add_dependencies
expand m unhealthy [] expanded = expanded
expand m unhealthy (c ∷ cs) expanded = expand m unhealthy cs (
    if not (JsMap.member c.base.docker_id unhealthy)
    then expanded
    else add_dependencies m (dependencies c.base) expanded)

unfoldable pub expanded_ids : List Container → List Text
unfolding unhealthy_ids name_to_id expand
expanded_ids containers =
    expand (name_to_id containers) (unhealthy_ids containers) containers (unhealthy_ids containers)

abbrev pub restart_batch : UpdateBatch → RestartBatch
restart_batch b = record {
  container_ids = b.container_ids;
  wait_for_healthy = b.wait_for_healthy;
  health_timeout = 120;
}

abbrev pub started : List Text → Reply
started ids = record {
  code = 202;
  body = text "Restart initiated for " ++ decimal (length ids) ++ text " container(s)";
}

-- The reply and the messages, once the batches are found; none if the orchestrator runs out of fuel.
unfoldable pub send_restart :
    Agent
    → List Text
    → Option (List UpdateBatch)
    → List (Text × List RestartBatch)
    → Option (Reply × List (Text × List RestartBatch))
send_restart agent ids none sent = none
send_restart agent ids (some batches) sent =
    if is_empty batches
    then some (record { code = 200; body = text "No containers to restart" }, sent)
    else some (started ids, sent ++ (agent.id, map restart_batch batches) ∷ [])

unfoldable pub restart_unhealthy :
    Option Agent
    → List Container
    → List (Text × List RestartBatch)
    → Option (Reply × List (Text × List RestartBatch))
unfolding unhealthy_ids expanded_ids resolve_update_batches send_restart
restart_unhealthy none containers sent =
    some (record { code = 404; body = text "Agent not found" }, sent)
restart_unhealthy (some agent) containers sent =
    if not (agent.status === text "online")
    then some (record { code = 409; body = text "Agent is not online" }, sent)
    else if is_empty (unhealthy_ids containers)
    then some (record { code = 200; body = text "No unhealthy containers" }, sent)
    else send_restart agent (expanded_ids containers)
        (resolve_update_batches (bases containers) (expanded_ids containers)) sent
