-- ===== src/AgentRoutes/Update/Bulk.antt =====
-- What a request for all updates tells the agent (controller/src/api/routes/agents.ts).
use mathlib.Core.Path.{subst}
use mathlib.Core.List.{Perm, Nodup}
use watchwarden.Base.{
  or_false, ◌≡◌, refl, ap, ◌∙◌, true, false, Option, some, List, [], ◌∷◌, ◌++◌, map, arith, Text,
  text, ◌===◌, ===_iff, ===_refl, is_empty, keep, All, All-mono, All-and,
}
use watchwarden.JsMap
use watchwarden.JsMap.{member-add, member-remove}
use watchwarden.JsMap.Members.{are_distinct}
use watchwarden.Orchestrator.{Message, ids, is_selected}
use watchwarden.Orchestrator.Selected.{docker_ids}
use watchwarden.Orchestrator.Told.{told}
use watchwarden.AgentRoutes.Data.{Container, Agent, bases}
use watchwarden.AgentRoutes.Update.{Hub, is_updatable, update, initiated}
use watchwarden.AgentRoutes.Update.Told.{updatable_ids, selected, update-accepted}

-- The docker ids of containers differ, and none of them is another container's id.
abbrev pub AreUnambiguous : List Container → Type 0
AreUnambiguous containers =
    (are_distinct (docker_ids (bases containers)) ≡ true)
    × All (λ c. JsMap.member c.base.id (docker_ids (bases containers)) ≡ false) containers

member-updatable_ids :
    (x : Text) (containers : List Container)
    → JsMap.member x (docker_ids (bases containers)) ≡ false
    → JsMap.member x (updatable_ids containers) ≡ false
unfolding JsMap.member
member-updatable_ids x [] h = refl
member-updatable_ids x (c ∷ cs) h = ground (arith, member-updatable_ids x cs)

-- An id that is none of a list's differs from each of them.
apart :
    (x : Text) (containers : List Container)
    → JsMap.member x (docker_ids (bases containers)) ≡ false
    → All (λ e. (x === e.base.docker_id) ≡ false) containers
unfolding JsMap.member
apart x [] h = tt
apart x (c ∷ cs) h = (
  ground (arith, ===_iff x c.base.docker_id, ===_iff c.base.docker_id x),
  apart x cs (ground arith),
)

updatable_behind :
    (c : Container) (cs : List Container) (e : Container)
    → ((c.base.docker_id === e.base.docker_id) ≡ false)
      × (JsMap.member e.base.docker_id (updatable_ids cs) ≡ is_updatable e)
    → JsMap.member e.base.docker_id (updatable_ids (c ∷ cs)) ≡ is_updatable e
unfolding JsMap.member
updatable_behind c cs e (p, q) = ground arith

-- Which ids are those of containers that can be updated.
updatable-All :
    (containers : List Container)
    → are_distinct (docker_ids (bases containers)) ≡ true
    → All
        (λ c. JsMap.member c.base.docker_id (updatable_ids containers) ≡ is_updatable c)
        containers
unfolding JsMap.member
updatable-All [] d = tt
updatable-All (c ∷ cs) d = (
  ground (arith, ===_refl c.base.docker_id, member-updatable_ids c.base.docker_id cs),
  All-mono _ _ cs (updatable_behind c cs)
      (All-and _ _ cs (apart c.base.docker_id cs (ground arith)) (updatable-All cs (ground arith))),
)

-- A request for all updates selects the containers that can be updated.
selected-updatable :
    (u : List Text) (containers : List Container)
    → All (λ c. is_selected u c.base ≡ is_updatable c) containers
    → keep (is_selected u) (bases containers) ≡ bases (keep is_updatable containers)
selected-updatable u [] h = refl
selected-updatable u (c ∷ cs) (p, h) = rw p (ground (arith, selected-updatable u cs h))

docker_ids-bases :
    (containers : List Container)
    → docker_ids (bases containers) ≡ map (λ c. c.base.docker_id) containers
docker_ids-bases [] = refl
docker_ids-bases (c ∷ cs) = ap (λ l. c.base.docker_id ∷ l) (docker_ids-bases cs)

bulk-selected :
    (containers : List Container)
    → AreUnambiguous containers
    → selected containers (updatable_ids containers) ≡ bases (keep is_updatable containers)
unfolding is_selected
bulk-selected containers (d, a) = selected-updatable (updatable_ids containers) containers (
    All-mono _ _ containers
      (λ c (p, q). rw (p, member-updatable_ids c.base.id containers q) (or_false (is_updatable c)))
      (All-and _ _ containers (updatable-All containers d) a))

bases-is_empty :
    (cs : List Container) → is_empty (bases cs) ≡ is_empty (map (λ c. c.base.docker_id) cs)
bases-is_empty [] = refl
bases-is_empty (c ∷ cs) = refl

-- Where the ids of the containers are not ambiguous, a request for all updates tells the agent each
-- container that has an update, is not excluded and is not stateful, exactly once, and no other; if
-- there is one, and the agent is online and has no update in flight.
pub update-all_told :
    (agent : Agent) (containers : List Container) (strategy : Option Text) (h : Hub)
    → (agent.status === text "online") ≡ true
    → JsMap.member agent.id h.auto_update_in_flight ≡ false
    → Nodup (ids (bases containers))
    → AreUnambiguous containers
    → is_empty (updatable_ids containers) ≡ false
    → (ms : List Message) × (update (some agent) containers [] strategy h
        ≡ some (
          initiated,
          record h {
            auto_update_in_flight = JsMap.add agent.id h.auto_update_in_flight;
            sent = h.sent ++ (agent.id, ms) ∷ [];
          },
        ))
      × Perm (told ms) (updatable_ids containers)
update-all_told agent containers strategy h online free n a e =
    let s = bulk-selected containers a in
    let (ms, r, p) =
      update-accepted agent containers [] strategy h online free e n
        (rw (s, bases-is_empty (keep is_updatable containers)) e) in
    (
      ms,
      r,
      subst (Perm (told ms)) (ap docker_ids s ∙ docker_ids-bases (keep is_updatable containers)) p,
    )
