-- ===== src/AgentRoutes/Update/Refused.antt =====
-- Which requests for an update are refused (controller/src/api/routes/agents.ts).
use watchwarden.Base.{
  ℕ, ◌≡◌, refl, Bool, true, false, not, ◌&&◌, Option, none, some, List, [], ◌∷◌, arith, Text, text,
  ◌===◌, ===_iff, is_empty, if_split, ◌==◌,
}
use watchwarden.JsMap
use watchwarden.JsMap.{member-add, member-remove}
use watchwarden.AgentRoutes.Data.{Container, Agent, Reply}
use watchwarden.AgentRoutes.Update.{
  Hub, set_update_in_flight, update_all, update_some, update, nothing_to_update,
}
use watchwarden.AgentRoutes.Update.Told.{asked}

abbrev pub accepts : Option Agent → List Container → List Text → Hub → Bool
accepts none containers container_ids h = false
accepts (some agent) containers container_ids h =
    agent.status === text "online"
    && not (JsMap.member agent.id h.auto_update_in_flight)
    && not (is_empty (asked containers container_ids))

-- What a request that is not accepted leaves.
abbrev pub IsRefused : Hub → Option (Reply × Hub) → Type 0
IsRefused h o =
    (r : Reply) × (h' : Hub) × (o ≡ some (r, h'))
    × ((r.code == 202) ≡ false)
    × (h'.sent ≡ h.sent)
    × ((x : Text)
        → JsMap.member x h'.auto_update_in_flight ≡ JsMap.member x h.auto_update_in_flight)

unmark-mark :
    (id x : Text) (marks : List Text)
    → JsMap.member id marks ≡ false
    → JsMap.member x (JsMap.remove id (JsMap.add id marks)) ≡ JsMap.member x marks
unmark-mark id x marks h =
    ground (arith, member-remove id x (JsMap.add id marks), member-add id x marks, ===_iff id x)

nothing_asked :
    (agent_id : Text) (containers : List Container) (container_ids : List Text)
    (strategy : Option Text) (h : Hub)
    → is_empty (asked containers container_ids) ≡ true
    → update_some agent_id containers container_ids strategy h
      ≡ some (nothing_to_update containers, set_update_in_flight agent_id false h)
unfolding update_some update_all
nothing_asked agent_id containers [] strategy h e = rw e refl
nothing_asked agent_id containers (x ∷ xs) strategy h e = cc

refusal :
    (code : ℕ) (body : Text) (h : Hub)
    → (code == 202) ≡ false
    → IsRefused h (some (record { code = code; body = body }, h))
refusal code body h n = (_, h, refl, n, refl, (λ x. refl))

nothing_to_update-code : (containers : List Container) → (nothing_to_update containers).code ≡ 200
unfolding nothing_to_update
nothing_to_update-code containers = refl

unmarked :
    (agent_id : Text) (containers : List Container) (container_ids : List Text)
    (strategy : Option Text) (h : Hub)
    → JsMap.member agent_id h.auto_update_in_flight ≡ false
    → is_empty (asked containers container_ids) ≡ true
    → IsRefused h (
        update_some agent_id containers container_ids strategy
          (set_update_in_flight agent_id true h))
unfolding set_update_in_flight
unmarked agent_id containers container_ids strategy h free e = (
  nothing_to_update containers,
  set_update_in_flight agent_id false (set_update_in_flight agent_id true h),
  nothing_asked agent_id containers container_ids strategy (set_update_in_flight agent_id true h) e,
  rw (nothing_to_update-code containers) refl,
  refl,
  λ x. unmark-mark agent_id x h.auto_update_in_flight free,
)

-- A request that is not accepted gets another reply than 202, sends nothing to an agent, and leaves
-- each agent's mark as it was; also the one that asks for all updates where there is none, which marks
-- its agent first.
pub update-IsRefused :
    (o : Option Agent) (containers : List Container) (container_ids : List Text)
    (strategy : Option Text) (h : Hub)
    → accepts o containers container_ids h ≡ false
    → IsRefused h (update o containers container_ids strategy h)
unfolding update
update-IsRefused none containers container_ids strategy h e = refusal 404 _ h refl
update-IsRefused (some agent) containers container_ids strategy h e =
    if_split (IsRefused h) (not (agent.status === text "online")) (λ _. refusal 409 _ h refl)
      (λ online.
        if_split (IsRefused h) (JsMap.member agent.id h.auto_update_in_flight)
          (λ _. refusal 409 _ h refl)
          (λ free. unmarked agent.id containers container_ids strategy h free (ground arith)))
