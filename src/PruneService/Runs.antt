-- ===== src/PruneService/Runs.antt =====
-- What a "prune all" run reports (controller/src/ws/prune-service.ts, executeRun).
use watchwarden.Base.{
  ℕ, zero, suc, ◌+◌, ◌<◌, ◌≡◌, ◌≢◌, ◌↔◌, inl, inr, refl, true, false, not, Option, none, some, List,
  [], ◌∷◌, ◌++◌, arith, Text, or_else, length, length-append, All, All-append, Bool-cases, if_cases,
}
use mathlib.Core.Path.{subst}
use watchwarden.JsMap
use watchwarden.JsMap.{Map, get-set}
use watchwarden.PruneService.Data.{
  PruneOptions, Result, ok, err, Agent, Status, success, partial, failed, skipped,
  PruneAgentOutcome, PruneRunSummary, PruneResultPayload, Reply, resolved, rejected, Event,
  run_complete, Loop, Execution, Service,
}
use watchwarden.PruneService.Exclusion.{take_out-suc, err_is_not_ok, ok-injective}
use watchwarden.PruneService.{
  outcome_of, begin, require_online_agent, start_on, start_prune, add_outcome, emit, finish_run,
  run_agents, initial, Step, starts, commits, settles, Reachable, here, next, commit_run, resume,
  finish, take_out, settle_found, settle, new_summary, empty_outcome, status_of, count_if,
  is_failed, is_skipped,
}

abbrev pub sum {ℓ} : {A : Type ℓ} → (A → ℕ) → List A → ℕ
sum f [] = 0
sum f (x ∷ xs) = f x + sum f xs

sum-append {ℓ} : {A : Type ℓ} (f : A → ℕ) (xs ys : List A) → sum f (xs ++ ys) ≡ sum f xs + sum f ys
sum-append f [] ys = omega arith
sum-append f (x ∷ xs) ys = omega (arith, sum-append f xs ys)

pub failed_as_number : PruneAgentOutcome → ℕ
unfolding count_if is_failed
failed_as_number o = count_if (is_failed o.status)

pub skipped_as_number : PruneAgentOutcome → ℕ
unfolding count_if is_skipped
skipped_as_number o = count_if (is_skipped o.status)

-- The totals are those of the results.
pub record TotalsOk (m : PruneRunSummary) : Type 0 where
  pub images : m.totals.images_removed ≡ sum (λ o. o.images_removed) m.results
  pub containers : m.totals.containers_removed ≡ sum (λ o. o.containers_removed) m.results
  pub space : m.totals.space_reclaimed ≡ sum (λ o. o.space_reclaimed) m.results
  pub failed : m.totals.failed ≡ sum failed_as_number m.results
  pub skipped : m.totals.skipped ≡ sum skipped_as_number m.results

add_outcome-TotalsOk :
    (o : PruneAgentOutcome) (m : PruneRunSummary) → TotalsOk m → TotalsOk (add_outcome o m)
unfolding add_outcome failed_as_number skipped_as_number
add_outcome-TotalsOk o m v = record {
  images = omega (arith, v.images, sum-append (λ o. o.images_removed) m.results (o ∷ []));
  containers =
      omega (arith, v.containers, sum-append (λ o. o.containers_removed) m.results (o ∷ []));
  space = omega (arith, v.space, sum-append (λ o. o.space_reclaimed) m.results (o ∷ []));
  failed = omega (arith, v.failed, sum-append failed_as_number m.results (o ∷ []));
  skipped = omega (arith, v.skipped, sum-append skipped_as_number m.results (o ∷ []));
}

-- A summary on the way, with so many agents still to come.
abbrev Underway : PruneRunSummary → ℕ → Type 0
Underway m left = TotalsOk m × (length m.results + left ≡ m.totals.agents) × (m.is_running ≡ true)

-- A summary that was sent as complete.
abbrev pub IsComplete : Event → Type 0
IsComplete (run_complete m) =
    TotalsOk m × (length m.results ≡ m.totals.agents) × (m.is_running ≡ false)
IsComplete _ = Unit

abbrev LoopOk : Option Loop → Type 0
LoopOk none = Unit
LoopOk (some l) = Underway l.summary (suc (length l.remaining))

record RunsOk (s : Service) : Type 0 where
  loops : All (λ e. LoopOk e.loop) s.executions
  sent : All IsComplete s.events

add_outcome-Underway :
    (o : PruneAgentOutcome) (m : PruneRunSummary) (left : ℕ)
    → Underway m (suc left)
    → Underway (add_outcome o m) left
unfolding add_outcome
add_outcome-Underway o m left (t, n, r) =
    (add_outcome-TotalsOk o m t, omega (arith, length-append m.results (o ∷ [])), r)

emit-RunsOk : (e : Event) (s : Service) → IsComplete e → RunsOk s → RunsOk (emit e s)
emit-RunsOk e s c v = record {
  loops = v.loops;
  sent = All-append IsComplete s.events (e ∷ []) v.sent (c, tt);
}

begin-RunsOk :
    (agent : Agent) (opts : PruneOptions) (request_id : Text) (loop : Option Loop) (s : Service)
    → LoopOk loop
    → RunsOk s
    → RunsOk (begin agent opts request_id loop s)
unfolding begin
begin-RunsOk agent opts request_id loop s l v = record {
  loops = All-append (λ e. LoopOk e.loop) s.executions _ v.loops (l, tt);
  sent = All-append IsComplete s.events _ v.sent (tt, tt);
}

run_agents-RunsOk :
    (opts : PruneOptions) (online : List Text) (request_id : Text) (index : ℕ) (agents : List Agent)
    (m : PruneRunSummary) (s : Service)
    → Underway m (length agents)
    → RunsOk s
    → RunsOk (run_agents opts online request_id index agents m s)
unfolding run_agents finish_run
run_agents-RunsOk opts online request_id index [] m s (t, n, r) v =
    emit-RunsOk _ _
      (
        record {
          images = t.images;
          containers = t.containers;
          space = t.space;
          failed = t.failed;
          skipped = t.skipped;
        },
        omega arith,
        refl,
      )
      (record { loops = v.loops; sent = v.sent })
run_agents-RunsOk opts online request_id index (agent ∷ rest) m s u v =
    if_cases RunsOk (not (JsMap.member agent.id online))
      (run_agents-RunsOk opts online request_id (index + 1) rest _ _
        (add_outcome-Underway _ m (length rest) u)
        (emit-RunsOk _ _ tt (record { loops = v.loops; sent = v.sent })))
      (if_cases RunsOk (JsMap.member agent.id s.active)
        (run_agents-RunsOk opts online request_id (index + 1) rest _ _
          (add_outcome-Underway _ m (length rest) u)
          (emit-RunsOk _ _ tt (record { loops = v.loops; sent = v.sent })))
        (begin-RunsOk agent opts request_id _ _ u
          (emit-RunsOk _ _ tt (record { loops = v.loops; sent = v.sent }))))

take_out-All :
    (P : Execution → Type 0) (i : ℕ) (es : List Execution) (e : Execution) (rest : List Execution)
    → take_out i es ≡ some (e, rest)
    → All P es
    → P e × All P rest
unfolding take_out
take_out-All P i [] e rest h a = cc
take_out-All P zero (x ∷ es) e rest h (p, a) =
    let same_e : x ≡ e = ground arith in
    let same_rest : es ≡ rest = ground arith in (subst P same_e p, subst (All P) same_rest a)
take_out-All P (suc i) (x ∷ es) e rest h (p, a) =
    let (rest', inner, same) = take_out-suc i x es e rest h in
    let (q, b) = take_out-All P i es e rest' inner a in (q, rw same (p, b))

resume-RunsOk :
    (loop : Option Loop) (e : Execution) (outcome : PruneAgentOutcome) (request_id : Text)
    (s : Service)
    → LoopOk loop
    → RunsOk s
    → RunsOk (resume loop e outcome request_id s)
unfolding resume
resume-RunsOk none e outcome request_id s l v = v
resume-RunsOk (some l) e outcome request_id s u v =
    run_agents-RunsOk e.opts l.online request_id (l.index + 1) l.remaining _ _
      (add_outcome-Underway outcome l.summary (length l.remaining) u)
      (emit-RunsOk _ _ tt (record { loops = v.loops; sent = v.sent }))

settle_found-RunsOk :
    (i : ℕ) (reply : Reply) (request_id : Text) (s : Service)
    (o : Option (Execution × List Execution))
    → take_out i s.executions ≡ o
    → RunsOk s
    → RunsOk (settle_found o reply request_id s)
unfolding settle_found finish
settle_found-RunsOk i reply request_id s none h v = v
settle_found-RunsOk i reply request_id s (some (e, rest)) h v =
    let (l, loops) = take_out-All (λ e. LoopOk e.loop) i s.executions e rest h v.loops in
    resume-RunsOk e.loop e (outcome_of e.agent reply) request_id _ l
      (record { loops = loops; sent = All-append IsComplete s.events _ v.sent (tt, tt) })

start_on-RunsOk :
    (r : Result Agent) (opts : PruneOptions) (request_id : Text) (s t : Service)
    → start_on r opts request_id s ≡ ok t
    → RunsOk s
    → RunsOk t
unfolding start_on
start_on-RunsOk (err code) opts request_id s t h v = cc
start_on-RunsOk (ok agent) opts request_id s t h v =
    elim (Bool-cases (JsMap.member agent.id s.active)) [
      | inl busy ↦ absurd (err_is_not_ok (rw busy at h))
      | inr free ↦
          subst RunsOk (ok-injective (rw free at h)) (
            begin-RunsOk agent opts request_id none _ tt
              (record { loops = v.loops; sent = v.sent }))
    ]

Step-RunsOk : {s t : Service} → Step s t → RunsOk s → RunsOk t
unfolding start_prune commit_run settle new_summary
Step-RunsOk {s} {t} (starts row online_ids opts request_id h) v =
    start_on-RunsOk (require_online_agent row online_ids) opts request_id s t h v
Step-RunsOk (commits opts run_id request_id now agents online) v =
    run_agents-RunsOk opts online request_id 0 agents _ _
      (
        record { images = refl; containers = refl; space = refl; failed = refl; skipped = refl },
        omega arith,
        refl,
      )
      (record { loops = v.loops; sent = v.sent })
Step-RunsOk {s} (settles i reply request_id) v =
    settle_found-RunsOk i reply request_id s (take_out i s.executions) refl v

Reachable-RunsOk : {s : Service} → Reachable s → RunsOk s
unfolding initial
Reachable-RunsOk here = record { loops = tt; sent = tt }
Reachable-RunsOk (next r st) = Step-RunsOk st (Reachable-RunsOk r)

-- Every summary that is sent as complete has one result for each agent of the run, its totals are
-- the sums over those results, and it is no longer marked as running; whatever other requests,
-- runs and replies came in between.
pub Reachable-IsComplete : {s : Service} → Reachable s → All IsComplete s.events
Reachable-IsComplete r = (Reachable-RunsOk r).sent

failed≢success : ◌≡◌ {A = Status} failed success → ⊥
failed≢success e = cc

rejected≢resolved :
    {message : Text} {r : PruneResultPayload} → ◌≡◌ {A = Reply} (rejected message) (resolved r) → ⊥
rejected≢resolved e = cc

status_of_lem :
    (errors : List Text) (removed : ℕ)
    → ((status_of errors removed ≡ success) ↔ (errors ≡ []))
      × (status_of errors removed ≡ partial → (errors ≢ []) × (0 < removed))
      × (status_of errors removed ≡ failed → removed ≡ 0)
      × (status_of errors removed ≢ skipped)
unfolding status_of
status_of_lem [] removed = ground arith
status_of_lem (x ∷ errors) removed = ground arith

-- An agent's outcome is "success" just if it reported no error; with errors it is "partial" if
-- something was removed and "failed" if not; and a request that was rejected has failed with its
-- message.
pub outcome_of_lem :
    (agent : Agent) (reply : Reply)
    → let o = outcome_of agent reply in
      (o.status ≡ success
        ↔ ((r : PruneResultPayload) × (reply ≡ resolved r) × (or_else r.errors [] ≡ [])))
      × (o.status ≡ partial → (o.errors ≢ []) × (0 < o.images_removed + o.containers_removed))
      × (o.status ≡ failed → o.images_removed + o.containers_removed ≡ 0)
      × (o.status ≢ skipped)
unfolding outcome_of empty_outcome status_of
outcome_of_lem agent (rejected message) = (
  (λ e. absurd (failed≢success e), λ (r, e, _). absurd (rejected≢resolved e)),
  λ e. cc,
  λ _. refl,
  λ e. cc,
)
outcome_of_lem agent (resolved r) =
    let (a, b, c, d) =
      status_of_lem (or_else r.errors [])
        (or_else r.images_removed 0 + or_else r.containers_removed 0) in
    ((λ e. (r, refl, a.0 e), λ (r', same, none_reported). a.1 (ground arith)), b, c, d)
