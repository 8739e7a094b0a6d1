-- ===== src/Hub/Queues/Ordered.antt =====
-- The messages of an agent are handled one at a time, in the order of their arrival
-- (controller/src/ws/hub.ts, `agentQueues`).
use watchwarden.Base.{
  ℕ, zero, suc, ◌+◌, ◌≤◌, ◌≡◌, refl, sym, ap, ◌∙◌, Bool, true, false, Option, none, some, List, [],
  ◌∷◌, ◌++◌, map, arith, Text, ◌===◌, ===_refl, if◌then◌else◌, Bool-cases, inl, inr, ===_iff, All,
}
use watchwarden.JsMap
use watchwarden.JsMap.{get-set, get-delete}
use watchwarden.Hub.Queues.{
  Task, Link, waiting, running, settled, start_at, end_at, start, end, is_settled, Queues, queue_of,
  put_queue, enqueue, Event, arrives, registers, closes, starts, ends, starts_detached,
  ends_detached, step, run, no_queues,
}
use watchwarden.Hub.Queues.Serial.{
  Executor, IsSerial, executor_of, executor, step-Does, IsWaiting, prepend, queue_of-put,
  queue_of-close,
}

-- The tasks of an agent that were put into its queue since it was last dropped.
abbrev pub arrived : Text → List Event → List Task → List Task
arrived a [] ts = ts
arrived a (arrives b message ∷ es) ts =
    arrived a es (if b === a then ts ++ some message ∷ [] else ts)
arrived a (registers b ∷ es) ts = arrived a es (if b === a then ts ++ none ∷ [] else ts)
arrived a (closes b ∷ es) ts = arrived a es (if b === a then [] else ts)
arrived a (_ ∷ es) ts = arrived a es ts

abbrev task_of : Link → Task
task_of (waiting t) = t
task_of (running t) = t
task_of (settled t) = t

start_at-tasks : (b : Bool) (i : ℕ) (c : List Link) → map task_of (start_at b i c) ≡ map task_of c
unfolding start_at start
start_at-tasks b i [] = refl
start_at-tasks true zero (waiting t ∷ c) = refl
start_at-tasks true zero (running t ∷ c) = refl
start_at-tasks true zero (settled t ∷ c) = refl
start_at-tasks false zero (l ∷ c) = refl
start_at-tasks b (suc i) (l ∷ c) = ap (λ x. task_of l ∷ x) (start_at-tasks (is_settled l) i c)

end_at-tasks : (i : ℕ) (c : List Link) → map task_of (end_at i c) ≡ map task_of c
unfolding end_at end
end_at-tasks i [] = refl
end_at-tasks zero (waiting t ∷ c) = refl
end_at-tasks zero (running t ∷ c) = refl
end_at-tasks zero (settled t ∷ c) = refl
end_at-tasks (suc i) (l ∷ c) = ap (λ x. task_of l ∷ x) (end_at-tasks i c)

add-tasks : (t : Task) (c : List Link) → map task_of (c ++ waiting t ∷ []) ≡ map task_of c ++ t ∷ []
add-tasks t [] = refl
add-tasks t (l ∷ c) = ap (λ x. task_of l ∷ x) (add-tasks t c)

abbrev tasks : Text → Queues → List Task
tasks a q = map task_of (queue_of a q)

put-tasks :
    (a b : Text) (c : List Link) (q : Queues) (g : List Task → List Task)
    → map task_of c ≡ g (tasks b q)
    → tasks a (put_queue b c q) ≡ (if b === a then g (tasks a q) else tasks a q)
put-tasks a b c q g h = elim (Bool-cases (b === a)) [
  | inl same ↦ rw (queue_of-put a b c q, same) (rw (← ((===_iff b a).0 same)) h)
  | inr other ↦ rw (queue_of-put a b c q, other) refl
]

if_same {ℓ} : {A : Type ℓ} (b : Bool) (x : A) → (if b then x else x) ≡ x
if_same true x = refl
if_same false x = refl

-- What an event adds to the tasks of an agent.
step-tasks :
    (a : Text) (e : Event) (q : Queues) → tasks a (step e q) ≡ arrived a (e ∷ []) (tasks a q)
unfolding step enqueue
step-tasks a (arrives b message) q =
    put-tasks a b _ q (λ ts. ts ++ some message ∷ []) (add-tasks (some message) (queue_of b q))
step-tasks a (registers b) q =
    put-tasks a b _ q (λ ts. ts ++ none ∷ []) (add-tasks none (queue_of b q))
step-tasks a (closes b) q = rw (queue_of-close a b q) (ground arith)
step-tasks a (starts b place) q =
    put-tasks a b _ q (λ ts. ts) (start_at-tasks true place (queue_of b q))
    ∙ if_same (b === a) (tasks a q)
step-tasks a (ends b place) q =
    put-tasks a b _ q (λ ts. ts) (end_at-tasks place (queue_of b q)) ∙ if_same (b === a) (tasks a q)
step-tasks a (starts_detached chain place) q = refl
step-tasks a (ends_detached chain place) q = refl

arrived-cons :
    (a : Text) (e : Event) (es : List Event) (ts : List Task)
    → arrived a (e ∷ es) ts ≡ arrived a es (arrived a (e ∷ []) ts)
arrived-cons a (arrives b message) es ts = refl
arrived-cons a (registers b) es ts = refl
arrived-cons a (closes b) es ts = refl
arrived-cons a (starts b place) es ts = refl
arrived-cons a (ends b place) es ts = refl
arrived-cons a (starts_detached chain place) es ts = refl
arrived-cons a (ends_detached chain place) es ts = refl

run-tasks :
    (a : Text) (es : List Event) (q : Queues)
    → IsSerial (queue_of a q)
    → (tasks a (run es q) ≡ arrived a es (tasks a q)) × IsSerial (queue_of a (run es q))
unfolding run
run-tasks a [] q h = (refl, h)
run-tasks a (e ∷ es) q h =
    let (p, s) = run-tasks a es (step e q) (step-Does a e q h).1 in
    (p ∙ ap (arrived a es) (step-tasks a e q) ∙ sym (arrived-cons a e es (tasks a q)), s)

-- The task under way, if there is one.
abbrev pub under_way : Option Task → List Task
under_way none = []
under_way (some t) = t ∷ []

executor_of-All_waiting :
    (c : List Link)
    → All IsWaiting c
    → executor_of c ≡ record { finished = []; current = none; pending = map task_of c }
unfolding executor_of
executor_of-All_waiting [] h = refl
executor_of-All_waiting (waiting t ∷ c) (_, h) =
    ap (prepend (waiting t)) (executor_of-All_waiting c h)
executor_of-All_waiting (running t ∷ c) (x, h) = absurd x
executor_of-All_waiting (settled t ∷ c) (x, h) = absurd x

serial-tasks :
    (c : List Link)
    → IsSerial c
    → let e = executor_of c in map task_of c ≡ e.finished ++ (under_way e.current ++ e.pending)
unfolding executor_of
serial-tasks [] h = refl
serial-tasks (waiting t ∷ c) h = rw (executor_of-All_waiting c h) refl
serial-tasks (running t ∷ c) h = rw (executor_of-All_waiting c h) refl
serial-tasks (settled t ∷ c) h = ap (λ x. t ∷ x) (serial-tasks c h)

queue_starts :
    {o : Option Task} (a : Text) (i : ℕ) (q : Queues)
    → (executor_of (start_at true i (queue_of a q))).current ≡ o
    → (executor a (step (starts a i) q)).current ≡ o
unfolding step
queue_starts a i q r = rw (queue_of-put a a (start_at true i (queue_of a q)) q, ===_refl a) r

-- The handlers that run.
abbrev pub handlers : List Link → ℕ
handlers [] = 0
handlers (waiting t ∷ c) = handlers c
handlers (running t ∷ c) = 1 + handlers c
handlers (settled t ∷ c) = handlers c

handlers-waiting : (c : List Link) → All IsWaiting c → handlers c ≡ 0
handlers-waiting [] h = refl
handlers-waiting (waiting t ∷ c) (_, h) = handlers-waiting c h
handlers-waiting (running t ∷ c) (x, h) = absurd x
handlers-waiting (settled t ∷ c) (x, h) = absurd x

handlers-serial : (c : List Link) → IsSerial c → handlers c ≤ 1
handlers-serial [] h = omega arith
handlers-serial (waiting t ∷ c) h = omega (arith, handlers-waiting c h)
handlers-serial (running t ∷ c) h = omega (arith, handlers-waiting c h)
handlers-serial (settled t ∷ c) h = handlers-serial c h

-- The task under way, or else the first one that is pending.
abbrev pub next : Executor → Option Task
next e = elim e.current [ some t ↦ some t | none ↦ elim e.pending [ [] ↦ none | t ∷ ts ↦ some t ] ]

next_starts :
    (c : List Link)
    → IsSerial c
    → (place : ℕ) × ((executor_of (start_at true place c)).current ≡ next (executor_of c))
unfolding executor_of start_at start is_settled
next_starts [] h = (0, refl)
next_starts (waiting u ∷ c) h = (0, rw (executor_of-All_waiting c h) refl)
next_starts (running u ∷ c) h = (0, refl)
next_starts (settled u ∷ c) h = let (i, q) = next_starts c h in (suc i, q)

-- Whatever messages arrive, agents register, connections end and handlers start and end: what an
-- agent's queue has finished, is doing and is still to do is, in this order, what arrived for it since
-- its connection last ended, each once; at most one of its handlers runs; and where none runs, the
-- first message that is pending, if there is one, can start.
pub run-in_order :
    (a : Text) (es : List Event)
    → let q = run es no_queues in
      let e = executor a q in
      (e.finished ++ (under_way e.current ++ e.pending) ≡ arrived a es [])
      × (handlers (queue_of a q) ≤ 1)
      × ((place : ℕ) × ((executor a (step (starts a place) q)).current ≡ next e))
run-in_order a es =
    let q = run es no_queues in
    let (p, s) = run-tasks a es no_queues (unfold queue_of JsMap.get in tt) in
    let (i, r) = next_starts (queue_of a q) s in
    (
      sym (serial-tasks (queue_of a q) s)
          ∙ p
          ∙ ap (arrived a es) (unfold queue_of JsMap.get in refl),
      handlers-serial (queue_of a q) s,
      (i, queue_starts a i q r),
    )
