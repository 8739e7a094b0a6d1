-- ===== src/AgentRoutes/Update/Told.antt =====
-- What a request for an update does (controller/src/api/routes/agents.ts).
use mathlib.Core.List.{Perm, Nodup}
use watchwarden.Base.{
  ◌≡◌, refl, ap, ◌∙◌, true, false, Option, none, some, List, [], ◌∷◌, ◌++◌, map, Text, text, ◌===◌,
  if◌then◌else◌, or_else, is_empty, keep,
}
use watchwarden.JsMap
use watchwarden.JsMap.{member-add, member-remove}
use watchwarden.Orchestrator
use watchwarden.Orchestrator.{Message, ids, is_selected, execute_orchestrated_update}
use watchwarden.Orchestrator.Selected.{docker_ids}
use watchwarden.Orchestrator.Told.{told, execute_orchestrated_update-told}
use watchwarden.AgentRoutes.Data.{Container, Agent, bases}
use watchwarden.AgentRoutes.Update.{
  Hub, set_update_in_flight, is_updatable, execute, update_all, update_some, update, initiated,
}

abbrev pub updatable_ids : List Container → List Text
updatable_ids containers = map (λ c. c.base.docker_id) (keep is_updatable containers)

-- The ids that a request asks for: its own, or those of all containers that can be updated.
abbrev pub asked : List Container → List Text → List Text
asked containers container_ids =
    if is_empty container_ids then updatable_ids containers else container_ids

abbrev pub selected : List Container → List Text → List Orchestrator.Container
selected containers container_ids = keep (is_selected container_ids) (bases containers)

update_some-asked :
    (agent_id : Text) (containers : List Container) (container_ids : List Text)
    (strategy : Option Text) (h : Hub)
    → is_empty (asked containers container_ids) ≡ false
    → update_some agent_id containers container_ids strategy h
      ≡ execute agent_id containers (asked containers container_ids) strategy h
unfolding update_some update_all
update_some-asked agent_id containers [] strategy h e = rw e refl
update_some-asked agent_id containers (x ∷ xs) strategy h e = refl

-- A request is accepted where its agent is online, has no update in flight, and it asks for something.
-- The agent is marked then, and told, with distinct ids, each container that is asked for, by either
-- of its ids, exactly once, and no other, provided there is one.
pub update-accepted :
    (agent : Agent) (containers : List Container) (container_ids : List Text)
    (strategy : Option Text) (h : Hub)
    → (agent.status === text "online") ≡ true
    → JsMap.member agent.id h.auto_update_in_flight ≡ false
    → is_empty (asked containers container_ids) ≡ false
    → Nodup (ids (bases containers))
    → is_empty (selected containers (asked containers container_ids)) ≡ false
    → (ms : List Message) × (update (some agent) containers container_ids strategy h
        ≡ some (
          initiated,
          record h {
            auto_update_in_flight = JsMap.add agent.id h.auto_update_in_flight;
            sent = h.sent ++ (agent.id, ms) ∷ [];
          },
        ))
      × Perm (told ms) (docker_ids (selected containers (asked containers container_ids)))
unfolding update execute set_update_in_flight
update-accepted agent containers container_ids strategy h online free some_asked n found =
    let marked = set_update_in_flight agent.id true h in
    let (ms, e, p) =
      execute_orchestrated_update-told (bases containers) (asked containers container_ids)
        (some (or_else strategy (text "stop-first"))) n found in
    (
      ms,
      rw (online, free)
          (update_some-asked agent.id containers container_ids strategy marked some_asked
            ∙ ap
                (λ o. elim o [
                  | none ↦ none
                  | some ms ↦
                      some (initiated, record marked { sent = h.sent ++ (agent.id, ms) ∷ [] })
                ])
                e),
      p,
    )
