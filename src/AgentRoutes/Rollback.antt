-- ===== src/AgentRoutes/Rollback.antt =====
-- POST /api/agents/:id/rollback (controller/src/api/routes/agents.ts): which image a container is rolled
-- back to.
pub mod Target
use watchwarden.Base.{
  Bool, true, false, not, ◌||◌, Option, none, some, List, [], ◌∷◌, ◌++◌, map, Text, text, ◌===◌,
  ◌==◌, if◌then◌else◌, or_else, is_empty, is_truthy, text_or, find, any, ℕ,
}
use watchwarden.Orchestrator
use watchwarden.Semver.{starts_with, extract_repository}
use watchwarden.AgentRoutes.Data.{Container, Agent, Reply}

-- `s.includes('@')`
unfoldable pub has_at : Text → Bool
has_at = any (λ c. c == b'@')

-- `s.slice(s.indexOf('@') + 1)`, of a text that has one.
unfoldable pub after_at : Text → Text
after_at [] = []
after_at (c ∷ s) = if c == b'@' then s else after_at s

unfoldable pub with_id : Text → List Container → Option Container
with_id id = find (λ c. c.base.docker_id === id || c.base.id === id)

pub record Request : Type 0 where
  pub container_id : Text
  pub target_tag : Option Text
  pub target_digest : Option Text

pub record Rollback : Type 0 where
  pub container_id : Text
  pub container_name : Option Text
  pub target_image : Option Text
  pub target_tag : Option Text

-- The digest without the reference that it may stand behind.
unfoldable pub rollback_digest : Text → Text
unfolding has_at after_at
rollback_digest digest =
    if has_at digest
    then after_at digest
    else if starts_with (text "sha256:") digest
    then digest
    else text "sha256:" ++ digest

-- `extractRepository(container.image) || container.image`
unfoldable pub base_image : Container → Text
base_image c = text_or (some (extract_repository c.image)) c.image

unfoldable pub target_image : Option Container → Request → Option Text
unfolding rollback_digest base_image
target_image none r = none
target_image (some c) r =
    if is_truthy r.target_digest
    then some (base_image c ++ b'@' ∷ rollback_digest (or_else r.target_digest []))
    else if is_truthy r.target_tag
    then some (base_image c ++ b':' ∷ or_else r.target_tag [])
    else none

-- The tag goes to the agent beside a digest only.
unfoldable pub agent_target_tag : Option Container → Request → Option Text
agent_target_tag none r = none
agent_target_tag (some c) r =
    if is_truthy r.target_digest
    then (if is_truthy r.target_tag then r.target_tag else none)
    else none

unfoldable pub rollback_message : Option Container → Request → Rollback
unfolding target_image agent_target_tag
rollback_message container r = record {
  container_id = r.container_id;
  container_name = elim container [ none ↦ none | some c ↦ some c.base.name ];
  target_image = target_image container r;
  target_tag = agent_target_tag container r;
}

-- The request, and the ROLLBACK messages that were handed to `sendToAgent`.
unfoldable pub rollback :
    Option Agent
    → List Container
    → Request
    → List (Text × Rollback)
    → Reply × List (Text × Rollback)
unfolding with_id rollback_message
rollback none containers r sent = (record { code = 404; body = text "Agent not found" }, sent)
rollback (some agent) containers r sent =
    if not (agent.status === text "online")
    then (record { code = 409; body = text "Agent is not online" }, sent)
    else (
      record { code = 202; body = text "Rollback initiated" },
      sent ++ (agent.id, rollback_message (with_id r.container_id containers) r) ∷ [],
    )
