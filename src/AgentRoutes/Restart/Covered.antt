-- ===== src/AgentRoutes/Restart/Covered.antt =====
-- Which containers a restart covers (controller/src/api/routes/agents.ts).
use mathlib.Core.List.{Perm, Nodup}
use mathlib.Core.List.Perm
use watchwarden.Base.{
  or_assoc, or_comm, ◌≡◌, refl, sym, ap, ◌∙◌, Bool, true, false, not, ◌&&◌, ◌||◌, some, List, [],
  ◌∷◌, ◌++◌, map, arith, Text, text, ◌===◌, ===_iff, ===_refl, if◌then◌else◌, is_empty, is_truthy,
  or_else, keep, any, true_is_not_false, Bool-cases, inl, inr,
}
use watchwarden.JsMap
use watchwarden.JsMap.{Map, member-add, member-unique_from}
use watchwarden.Orchestrator.{UpdateBatch, dependencies, ids, is_selected}
use watchwarden.Orchestrator.Selected.{docker_ids, batched, resolve_update_batches-Perm}
use watchwarden.AgentRoutes.Data.{Container, Agent, bases}
use watchwarden.AgentRoutes.Restart.{
  RestartBatch, is_unhealthy, unhealthy_ids, name_to_id, add_dependencies, expand, expanded_ids,
  restart_batch, started, send_restart, restart_unhealthy,
}

-- Whether a name stands for a docker id that is not empty.
abbrev pub stands_for : Map Text → Text → Text → Bool
stands_for m t n = is_truthy (JsMap.get n m) && or_else (JsMap.get n m) [] === t

-- Whether a docker id is that of a direct dependency of a container that is to be restarted.
abbrev pub is_needed : Map Text → (unhealthy : List Text) → Text → Container → Bool
is_needed m unhealthy t c =
    JsMap.member c.base.docker_id unhealthy && any (stands_for m t) (dependencies c.base)

member-add_if :
    (b : Bool) (id t : Text) (expanded : List Text)
    → JsMap.member t (if b then JsMap.add id expanded else expanded)
      ≡ (JsMap.member t expanded || (b && id === t))
member-add_if true id t expanded =
    member-add id t expanded ∙ or_comm (id === t) (JsMap.member t expanded)
member-add_if false id t expanded = ground arith

member-add_dependencies :
    (m : Map Text) (t : Text) (ns expanded : List Text)
    → JsMap.member t (add_dependencies m ns expanded)
      ≡ (JsMap.member t expanded || any (stands_for m t) ns)
unfolding add_dependencies
member-add_dependencies m t [] expanded = ground arith
member-add_dependencies m t (n ∷ ns) expanded =
    member-add_dependencies m t ns _
    ∙ ap (λ b. b || any (stands_for m t) ns)
        (member-add_if (is_truthy (JsMap.get n m)) (or_else (JsMap.get n m) []) t expanded)
    ∙ or_assoc (JsMap.member t expanded) (stands_for m t n) (any (stands_for m t) ns)

member-unless :
    (m : Map Text) (t : Text) (unhealthy : Bool) (ns expanded : List Text)
    → JsMap.member t (if not unhealthy then expanded else add_dependencies m ns expanded)
      ≡ (JsMap.member t expanded || (unhealthy && any (stands_for m t) ns))
member-unless m t true ns expanded = member-add_dependencies m t ns expanded
member-unless m t false ns expanded = ground arith

member-expand :
    (m : Map Text) (unhealthy : List Text) (t : Text) (cs : List Container) (expanded : List Text)
    → JsMap.member t (expand m unhealthy cs expanded)
      ≡ (JsMap.member t expanded || any (is_needed m unhealthy t) cs)
unfolding expand
member-expand m unhealthy t [] expanded = ground arith
member-expand m unhealthy t (c ∷ cs) expanded =
    member-expand m unhealthy t cs _
    ∙ ap (λ b. b || any (is_needed m unhealthy t) cs)
        (member-unless m t (JsMap.member c.base.docker_id unhealthy) (dependencies c.base) expanded)
    ∙ or_assoc (JsMap.member t expanded) (is_needed m unhealthy t c)
        (any (is_needed m unhealthy t) cs)

-- The docker ids that are restarted: those of unhealthy containers, and of what these depend on.
abbrev pub is_covered : List Container → Text → Bool
is_covered containers t =
    let unhealthy = unhealthy_ids containers in
    JsMap.member t unhealthy || any (is_needed (name_to_id containers) unhealthy t) containers

member-expanded_ids :
    (containers : List Container) (t : Text)
    → JsMap.member t (expanded_ids containers) ≡ is_covered containers t
unfolding expanded_ids
member-expanded_ids containers t =
    member-expand (name_to_id containers) (unhealthy_ids containers) t containers
      (unhealthy_ids containers)

member-unhealthy_ids :
    (containers : List Container) (t : Text)
    → JsMap.member t (unhealthy_ids containers)
      ≡ JsMap.member t (map (λ c. c.base.docker_id) (keep is_unhealthy containers))
unfolding unhealthy_ids JsMap.member
member-unhealthy_ids containers t =
    member-unique_from t [] (map (λ c. c.base.docker_id) (keep is_unhealthy containers))

abbrev ids_of_unhealthy : List Container → List Text
ids_of_unhealthy containers = map (λ c. c.base.docker_id) (keep is_unhealthy containers)

not_selected :
    (x : Text) (s : List Text) (c : Container)
    → JsMap.member x s ≡ true
    → is_selected s c.base ≡ false
    → (c.base.docker_id === x) ≡ false
unfolding is_selected
not_selected x s c h other = elim (Bool-cases (c.base.docker_id === x)) [
  | inl same ↦
      let has : JsMap.member c.base.docker_id s ≡ true =
        rw ((===_iff c.base.docker_id x).0 same) h in
      absurd (true_is_not_false has (ground arith))
  | inr differs ↦ differs
]

in_tail :
    (x : Text) (u : Bool) (c : Container) (cs : List Container)
    → (c.base.docker_id === x) ≡ false
    → JsMap.member x (map (λ d. d.base.docker_id) (if u then c ∷ cs else cs)) ≡ true
    → JsMap.member x (map (λ d. d.base.docker_id) cs) ≡ true
unfolding JsMap.member
in_tail x true c cs h k = ground arith
in_tail x false c cs h k = k

selected-not_empty :
    (x : Text) (s : List Text) (cs : List Container)
    → JsMap.member x s ≡ true
    → JsMap.member x (ids_of_unhealthy cs) ≡ true
    → is_empty (docker_ids (keep (is_selected s) (bases cs))) ≡ false
unfolding JsMap.member
selected-not_empty x s [] h k = cc
selected-not_empty x s (c ∷ cs) h k = elim (Bool-cases (is_selected s c.base)) [
  | inl chosen ↦ rw chosen refl
  | inr other ↦ rw other (
      selected-not_empty x s cs h
        (in_tail x (is_unhealthy c) c (keep is_unhealthy cs) (not_selected x s c h other) k))
]

some_selected :
    (containers : List Container) (u : List Text)
    → unhealthy_ids containers ≡ u
    → is_empty u ≡ false
    → is_empty (docker_ids (keep (is_selected (expanded_ids containers)) (bases containers)))
      ≡ false
some_selected containers [] e h = cc
some_selected containers (x ∷ u) e h =
    let found : JsMap.member x (unhealthy_ids containers) ≡ true =
      rw e (unfold JsMap.member in rw (===_refl x) refl) in
    selected-not_empty x (expanded_ids containers) containers
      (member-expanded_ids containers x ∙ rw found refl)
      (sym (member-unhealthy_ids containers x) ∙ found)

some_batch :
    (bs : List UpdateBatch) (ds : List Text)
    → Perm (batched bs) ds
    → is_empty ds ≡ false
    → is_empty bs ≡ false
some_batch [] ds p h = ap is_empty (Perm.nil-eq p) ∙ h
some_batch (b ∷ bs) ds p h = refl

-- A restart, for an agent that is online, of containers with distinct ids of which some is unhealthy:
-- the agent is told, in the batches of one message, the docker id of each container of which the docker
-- id or the id is covered, exactly once, and no other. Covered are the docker ids of the unhealthy
-- containers, and of the containers that one of these names as its direct dependency.
pub restart_unhealthy-covers :
    (agent : Agent) (containers : List Container) (sent : List (Text × List RestartBatch))
    (t : Text)
    → (agent.status === text "online") ≡ true
    → Nodup (ids (bases containers))
    → is_empty (unhealthy_ids containers) ≡ false
    → (bs : List UpdateBatch) × (restart_unhealthy (some agent) containers sent
        ≡ some (started (expanded_ids containers), sent ++ (agent.id, map restart_batch bs) ∷ []))
      × Perm
          (batched bs)
          (docker_ids (keep (is_selected (expanded_ids containers)) (bases containers)))
      × (JsMap.member t (expanded_ids containers) ≡ is_covered containers t)
unfolding restart_unhealthy
restart_unhealthy-covers agent containers sent t online n some_unhealthy =
    let (bs, e, p) = resolve_update_batches-Perm (bases containers) (expanded_ids containers) n in
    (
      bs,
      rw (online, some_unhealthy)
          (ap (λ o. send_restart agent (expanded_ids containers) o sent) e
            ∙ rw
                (some_batch bs _ p
                  (some_selected containers (unhealthy_ids containers) refl some_unhealthy))
                refl),
      p,
      member-expanded_ids containers t,
    )
