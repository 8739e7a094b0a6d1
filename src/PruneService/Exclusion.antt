-- ===== src/PruneService/Exclusion.antt =====
-- One prune at a time on each agent (controller/src/ws/prune-service.ts, active).
use watchwarden.Base.{
  ℕ, zero, suc, ◌+◌, ◌≡◌, inl, inr, refl, sym, ap, ◌∙◌, true, false, not, Option, none, some, List,
  [], ◌∷◌, ◌++◌, arith, map, Text, ===_iff, ===_refl, Bool-cases, if_cases,
}
use mathlib.Core.Path.{subst}
use mathlib.Core.List.{map-append}
use watchwarden.JsMap
use watchwarden.JsMap.{Map, get-set}
use watchwarden.PruneService.Data.{
  PruneOptions, Result, ok, err, Agent, PruneAgentOutcome, PruneRunSummary, Reply, Loop, Execution,
  Service,
}
use watchwarden.PruneService.{
  outcome_of, begin, require_online_agent, start_on, start_prune, emit, progress, finish_run,
  run_agents, initial, Step, starts, commits, settles, Reachable, here, next, commit_run, resume,
  finish, take_out, settle_found, settle,
}

abbrev pub DistinctIds : List Text → Type 0
DistinctIds [] = Unit
DistinctIds (x ∷ xs) = (JsMap.member x xs ≡ false) × DistinctIds xs

abbrev pub agent_ids : List Execution → List Text
agent_ids = map (λ e. e.agent.id)

-- The agents marked active are those of the waiting executions, each once.
pub record IsExclusive (s : Service) : Type 0 where
  pub marked : agent_ids s.executions ≡ s.active
  pub distinct : DistinctIds s.active

DistinctIds-append :
    (xs : List Text) (x : Text)
    → DistinctIds xs
    → JsMap.member x xs ≡ false
    → DistinctIds (xs ++ x ∷ [])
unfolding JsMap.member
DistinctIds-append [] x d n = (refl, tt)
DistinctIds-append (y ∷ xs) x (m, d) n = (
  ground (arith, JsMap.member-append_one x y xs, ===_iff x y, ===_iff y x),
  DistinctIds-append xs x d (ground arith),
)

remove_absent : (x : Text) (xs : List Text) → JsMap.member x xs ≡ false → JsMap.remove x xs ≡ xs
unfolding JsMap.member JsMap.remove
remove_absent x [] h = refl
remove_absent x (y ∷ xs) h = ground (arith, remove_absent x xs)

DistinctIds-remove : (x : Text) (xs : List Text) → DistinctIds xs → DistinctIds (JsMap.remove x xs)
unfolding JsMap.remove
DistinctIds-remove x [] d = tt
DistinctIds-remove x (y ∷ xs) (n, d) =
    ground (arith, DistinctIds-remove x xs d, JsMap.member-remove x y xs, ===_iff x y, ===_iff y x)

suc_case :
    (o : Option (Execution × List Execution)) (x e : Execution) (rest : List Execution)
    → ◌≡◌ {A = Option (Execution × List Execution)}
        (elim o [ none ↦ none | some (y, es) ↦ some (y, x ∷ es) ])
        (some (e, rest))
    → (rest' : List Execution) × (o ≡ some (e, rest')) × (rest ≡ x ∷ rest')
suc_case none x e rest h = cc
suc_case (some (y, es)) x e rest h = (es, ground arith, ground arith)

pub take_out-suc :
    (i : ℕ) (x : Execution) (es : List Execution) (e : Execution) (rest : List Execution)
    → take_out (suc i) (x ∷ es) ≡ some (e, rest)
    → (rest' : List Execution) × (take_out i es ≡ some (e, rest')) × (rest ≡ x ∷ rest')
unfolding take_out
take_out-suc i x es e rest h = suc_case (take_out i es) x e rest h

-- Taking an execution out takes its mark out.
take_out-remove :
    (i : ℕ) (es : List Execution) (e : Execution) (rest : List Execution)
    → take_out i es ≡ some (e, rest)
    → DistinctIds (agent_ids es)
    → (JsMap.remove e.agent.id (agent_ids es) ≡ agent_ids rest)
      × (JsMap.member e.agent.id (agent_ids es) ≡ true)
unfolding take_out JsMap.remove JsMap.member
take_out-remove i [] e rest h d = cc
take_out-remove zero (x ∷ es) e rest h (n, d) =
    ground (arith, ===_refl x.agent.id, remove_absent x.agent.id (agent_ids es) n)
take_out-remove (suc i) (x ∷ es) e rest h (n, d) =
    let (rest', inner, same) = take_out-suc i x es e rest h in
    ground (arith, take_out-remove i es e rest' inner d, ===_iff x.agent.id e.agent.id)

add_new : (x : Text) (xs : List Text) → JsMap.member x xs ≡ false → JsMap.add x xs ≡ xs ++ x ∷ []
unfolding JsMap.add
add_new x xs n = rw n

begin-IsExclusive :
    (agent : Agent) (opts : PruneOptions) (request_id : Text) (loop : Option Loop) (s : Service)
    → JsMap.member agent.id s.active ≡ false
    → IsExclusive s
    → IsExclusive
        (begin agent opts request_id loop (record s { active = JsMap.add agent.id s.active }))
unfolding begin JsMap.add
begin-IsExclusive agent opts request_id loop s n v =
    subst (λ ids. IsExclusive (begin agent opts request_id loop (record s { active = ids })))
      (sym (add_new agent.id s.active n))
      (record {
        marked = map-append _ s.executions _ ∙ ap (λ ids. ids ++ agent.id ∷ []) v.marked;
        distinct = DistinctIds-append s.active agent.id v.distinct n;
      })

run_agents-IsExclusive :
    (opts : PruneOptions) (online : List Text) (request_id : Text) (index : ℕ) (agents : List Agent)
    (m : PruneRunSummary) (s : Service)
    → IsExclusive s
    → IsExclusive (run_agents opts online request_id index agents m s)
unfolding run_agents finish_run
run_agents-IsExclusive opts online request_id index [] m s v = record {
  marked = v.marked;
  distinct = v.distinct;
}
run_agents-IsExclusive opts online request_id index (agent ∷ rest) m s v =
    if_cases IsExclusive (not (JsMap.member agent.id online))
      (run_agents-IsExclusive opts online request_id (index + 1) rest _ _
        (record { marked = v.marked; distinct = v.distinct }))
      (elim (Bool-cases (JsMap.member agent.id s.active)) [
        | inl busy ↦ rw busy (
            run_agents-IsExclusive opts online request_id (index + 1) rest _ _
              (record { marked = v.marked; distinct = v.distinct }))
        | inr free ↦ rw free (
            begin-IsExclusive agent opts request_id _ (emit (progress m index agent none) s) free
              (record { marked = v.marked; distinct = v.distinct }))
      ])

resume-IsExclusive :
    (loop : Option Loop) (e : Execution) (outcome : PruneAgentOutcome) (request_id : Text)
    (s : Service)
    → IsExclusive s
    → IsExclusive (resume loop e outcome request_id s)
unfolding resume
resume-IsExclusive none e outcome request_id s v = v
resume-IsExclusive (some l) e outcome request_id s v =
    run_agents-IsExclusive e.opts l.online request_id (l.index + 1) l.remaining _ _
      (record { marked = v.marked; distinct = v.distinct })

settle_found-IsExclusive :
    (i : ℕ) (reply : Reply) (request_id : Text) (s : Service)
    (o : Option (Execution × List Execution))
    → take_out i s.executions ≡ o
    → IsExclusive s
    → IsExclusive (settle_found o reply request_id s)
unfolding settle_found finish
settle_found-IsExclusive i reply request_id s none h v = v
settle_found-IsExclusive i reply request_id s (some (e, rest)) h v =
    let distinct : DistinctIds (agent_ids s.executions) =
      subst DistinctIds (sym v.marked) v.distinct in
    let (out, _) = take_out-remove i s.executions e rest h distinct in
    resume-IsExclusive e.loop e (outcome_of e.agent reply) request_id _ (record {
      marked = sym out ∙ ap (JsMap.remove e.agent.id) v.marked;
      distinct = DistinctIds-remove e.agent.id s.active v.distinct;
    })

pub err_is_not_ok : {s : Service} {code : ℕ} → ◌≡◌ {A = Result Service} (err code) (ok s) → ⊥
err_is_not_ok h = cc

pub ok-injective : {s t : Service} → ◌≡◌ {A = Result Service} (ok s) (ok t) → s ≡ t
ok-injective h = ground arith

start_on-IsExclusive :
    (r : Result Agent) (opts : PruneOptions) (request_id : Text) (s t : Service)
    → start_on r opts request_id s ≡ ok t
    → IsExclusive s
    → IsExclusive t
unfolding start_on
start_on-IsExclusive (err code) opts request_id s t h v = cc
start_on-IsExclusive (ok agent) opts request_id s t h v =
    elim (Bool-cases (JsMap.member agent.id s.active)) [
      | inl busy ↦ absurd (err_is_not_ok (rw busy at h))
      | inr free ↦
          subst IsExclusive (ok-injective (rw free at h))
            (begin-IsExclusive agent opts request_id none s free v)
    ]

Step-IsExclusive : {s t : Service} → Step s t → IsExclusive s → IsExclusive t
unfolding start_prune commit_run settle
Step-IsExclusive {s} {t} (starts row online_ids opts request_id h) v =
    start_on-IsExclusive (require_online_agent row online_ids) opts request_id s t h v
Step-IsExclusive {s} (commits opts run_id request_id now agents online) v =
    run_agents-IsExclusive opts online request_id 0 agents _ _
      (record { marked = v.marked; distinct = v.distinct })
Step-IsExclusive {s} (settles i reply request_id) v =
    settle_found-IsExclusive i reply request_id s (take_out i s.executions) refl v

-- Whatever requests, runs (also several that overlap) and replies come, in any order, the agents
-- marked active are those whose prune is under way, each of them once: no agent is pruned twice at
-- the same time, and no mark outlives its prune.
pub Reachable-IsExclusive : {s : Service} → Reachable s → IsExclusive s
unfolding initial
Reachable-IsExclusive here = record { marked = refl; distinct = tt }
Reachable-IsExclusive (next r st) = Step-IsExclusive st (Reachable-IsExclusive r)

accepted :
    (agent : Agent) (online_ids : List Text) (opts opts' : PruneOptions)
    (request_id request_id' : Text) (s t : Service)
    → start_prune (some agent) online_ids opts request_id s ≡ ok t
    → (agent.is_online ≡ true)
      × (JsMap.member agent.id online_ids ≡ true)
      × (JsMap.member agent.id s.active ≡ false)
      × (t.active ≡ s.active ++ agent.id ∷ [])
      × (start_prune (some agent) online_ids opts' request_id' t ≡ err 409)
unfolding start_prune start_on begin require_online_agent JsMap.add
accepted agent online_ids opts opts' request_id request_id' s t h =
    ground (arith, JsMap.member-append_one agent.id agent.id s.active, ===_refl agent.id)

-- A prune is accepted only if its agent is known, is online in the database and at the hub, and has
-- no prune under way. It is marked then, and a second request for it is refused with 409.
pub start_prune-twice :
    (row : Option Agent) (online_ids : List Text) (opts opts' : PruneOptions)
    (request_id request_id' : Text) (s t : Service)
    → start_prune row online_ids opts request_id s ≡ ok t
    → (agent : Agent) × (row ≡ some agent)
      × (agent.is_online ≡ true)
      × (JsMap.member agent.id online_ids ≡ true)
      × (JsMap.member agent.id s.active ≡ false)
      × (t.active ≡ s.active ++ agent.id ∷ [])
      × (start_prune row online_ids opts' request_id' t ≡ err 409)
unfolding start_prune start_on require_online_agent
start_prune-twice none online_ids opts opts' request_id request_id' s t h = absurd (err_is_not_ok h)
start_prune-twice (some agent) online_ids opts opts' request_id request_id' s t h =
    let (a, b, c, d, e) = accepted agent online_ids opts opts' request_id request_id' s t h in
    (agent, refl, a, b, c, d, e)
