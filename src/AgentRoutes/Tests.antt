-- ===== src/AgentRoutes/Tests.antt =====
-- The theorems on the routes of the agents at concrete inputs.
use mathlib.Core.List.{Perm}
use watchwarden.Base.{
  ◌≤◌, ◌≡◌, refl, true, false, none, some, List, [], ◌∷◌, ◌++◌, map, keep, find, length, text,
  ◌===◌, ===_refl, is_empty,
}
use watchwarden.JsMap
use watchwarden.JsMap.Members.{are_distinct, Nodup-of}
use watchwarden.Orchestrator
use watchwarden.Orchestrator.{Message, UpdateBatch, ids, is_selected}
use watchwarden.Orchestrator.Selected.{docker_ids, batched}
use watchwarden.Orchestrator.Told.{told}
use watchwarden.Hub.UpdateResult
use watchwarden.AgentRoutes.Data.{Container, Agent, bases}
use watchwarden.AgentRoutes.Update.{Hub, is_updatable, update, initiated}
use watchwarden.AgentRoutes.Update.Told.{updatable_ids}
use watchwarden.AgentRoutes.Update.Refused.{accepts, IsRefused, update-IsRefused}
use watchwarden.AgentRoutes.Update.Bulk.{AreUnambiguous, update-all_told}
use watchwarden.AgentRoutes.Versions.{Entry, is_relevant, sides, digest_of, local_versions}
use watchwarden.AgentRoutes.Versions.Distinct.{has_digest, current, local_versions_lem}
use watchwarden.AgentRoutes.Restart.{
  unhealthy_ids, is_unhealthy, expanded_ids, restart_batch, started, restart_unhealthy,
}
use watchwarden.AgentRoutes.Restart.Covered.{is_covered, restart_unhealthy-covers}

abbrev app : Container
app = record {
  base = record {
    id = text "ap";
    docker_id = text "docker-ap";
    name = text "app";
    update_priority = 100;
    depends_on = Orchestrator.names (text "db" ∷ []);
  };
  image = text "app:1";
  current_digest = some (text "app@sha256:1");
  status = text "running";
  health_status = some (text "unhealthy");
  has_update = true;
  excluded = false;
  is_stateful = false;
}

abbrev db : Container
db = record app {
  base = record {
    id = text "d";
    docker_id = text "docker-d";
    name = text "db";
    update_priority = 100;
    depends_on = Orchestrator.absent;
  };
  health_status = none;
  is_stateful = true;
}

abbrev containers : List Container
containers = app ∷ db ∷ []

abbrev agent : Agent
agent = record { id = text "a1"; status = text "online" }

abbrev hub : Hub
hub = record { auto_update_in_flight = text "a2" ∷ []; sent = [] }

distinct : are_distinct (ids (bases containers)) ≡ true
unfolding JsMap.member ◌===◌
distinct = refl

unambiguous : AreUnambiguous containers
unfolding JsMap.member ◌===◌
unambiguous = (refl, (refl, (refl, tt)))

online : (agent.status === text "online") ≡ true
online = ===_refl (text "online")

free : JsMap.member agent.id hub.auto_update_in_flight ≡ false
unfolding JsMap.member ◌===◌
free = refl

some_updatable : is_empty (updatable_ids containers) ≡ false
unfolding is_updatable
some_updatable = refl

-- The stateful database is skipped.
update-all_told_example :
    (ms : List Message) × (update (some agent) containers [] none hub
      ≡ some (
        initiated,
        record hub {
          auto_update_in_flight = JsMap.add agent.id hub.auto_update_in_flight;
          sent = hub.sent ++ (agent.id, ms) ∷ [];
        },
      ))
    × Perm (told ms) (updatable_ids containers)
update-all_told_example =
    update-all_told agent containers none hub online free
      (Nodup-of (ids (bases containers)) distinct) unambiguous some_updatable

nothing_accepted : accepts (some agent) (db ∷ []) [] hub ≡ false
unfolding is_updatable JsMap.member ◌===◌
nothing_accepted = refl

update-IsRefused_example : IsRefused hub (update (some agent) (db ∷ []) [] none hub)
update-IsRefused_example = update-IsRefused (some agent) (db ∷ []) [] none hub nothing_accepted

-- An update, and the one before it.
abbrev newer : Entry
newer = record {
  log = record {
    agent_id = text "a1";
    container_id = text "docker-ap";
    container_name = text "app";
    old_digest = some (text "sha256:0");
    new_digest = some (text "app@sha256:1");
    old_image = some (text "app:0");
    new_image = some (text "app:1");
    status = UpdateResult.success;
    error = none;
    duration_ms = 900;
    diff = none;
  };
  created_at = 2000;
}

abbrev history : List Entry
history = newer ∷ record newer { created_at = 1000 } ∷ []

local_versions_lem_example :
    let vs = local_versions (text "a1") (text "docker-ap") (some app) history in
    let all =
      sides (some app) (keep (is_relevant (text "a1") (text "docker-ap") (some app)) history) in
    (are_distinct (map digest_of vs) ≡ true)
    × (find (has_digest (text "sha256:1")) vs ≡ find (has_digest (text "sha256:1")) all)
    × (length (current vs) ≤ 1)
local_versions_lem_example =
    local_versions_lem (text "a1") (text "docker-ap") (some app) history (text "sha256:1") refl

some_unhealthy : is_empty (unhealthy_ids containers) ≡ false
unfolding unhealthy_ids is_unhealthy JsMap.unique_from JsMap.add JsMap.member ◌===◌
some_unhealthy = refl

-- The database is restarted with the application that depends on it.
restart_unhealthy-covers_example :
    (bs : List UpdateBatch) × (restart_unhealthy (some agent) containers []
      ≡ some (started (expanded_ids containers), [] ++ (agent.id, map restart_batch bs) ∷ []))
    × Perm
        (batched bs)
        (docker_ids (keep (is_selected (expanded_ids containers)) (bases containers)))
    × (JsMap.member (text "docker-d") (expanded_ids containers)
        ≡ is_covered containers (text "docker-d"))
restart_unhealthy-covers_example =
    restart_unhealthy-covers agent containers [] (text "docker-d") online
      (Nodup-of (ids (bases containers)) distinct) some_unhealthy
