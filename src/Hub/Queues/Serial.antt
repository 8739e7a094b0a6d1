-- ===== src/Hub/Queues/Serial.antt =====
-- An agent's queue is a serial executor (controller/src/ws/hub.ts, `agentQueues`).
use watchwarden.Base.{
  ℕ, zero, suc, ◌≡◌, refl, ap, ◌∙◌, true, false, Option, none, some, List, [], ◌∷◌, ◌++◌, arith,
  Text, ◌===◌, ===_iff, if_split, if◌then◌else◌, All, All-append,
}
use watchwarden.JsMap.{get-set, get-delete}
use watchwarden.Hub.Queues.{
  Task, Link, waiting, running, settled, start_at, end_at, start, end, is_settled, Queues, queue_of,
  put_queue, enqueue, close, Event, arrives, registers, closes, starts, ends, starts_detached,
  ends_detached, step,
}

-- The executor: what it has done, what it is doing, and what it is still to do, in order.
pub record Executor : Type 0 where
  pub finished : List Task
  pub current : Option Task
  pub pending : List Task

abbrev pub idle : Executor
idle = record { finished = []; current = none; pending = [] }

-- What it can do at once: `Works` by itself, `Does` with what it is given.
pub data Works (e f : Executor) : Type 0 where
  rests : f ≡ e → Works e f
  begins :
      (t : Task) (ts : List Task)
      → e.current ≡ none
      → e.pending ≡ t ∷ ts
      → f ≡ record e { current = some t; pending = ts }
      → Works e f
  finishes :
      (t : Task)
      → e.current ≡ some t
      → f ≡ record e { finished = e.finished ++ t ∷ []; current = none }
      → Works e f

pub data Does (e f : Executor) : Type 0 where
  works : Works e f → Does e f
  takes : (t : Task) → f ≡ record e { pending = e.pending ++ t ∷ [] } → Does e f
  is_reset : f ≡ idle → Does e f

abbrev pub IsWaiting : Link → Type 0
IsWaiting (waiting t) = Unit {0}
IsWaiting (running t) = ⊥
IsWaiting (settled t) = ⊥

-- Settled links, then at most one that runs, then those that wait.
abbrev pub IsSerial : List Link → Type 0
IsSerial [] = Unit {0}
IsSerial (waiting t ∷ c) = All IsWaiting c
IsSerial (running t ∷ c) = All IsWaiting c
IsSerial (settled t ∷ c) = IsSerial c

-- The executor that a chain stands for.
abbrev pub prepend : Link → Executor → Executor
prepend (waiting t) e = record e { pending = t ∷ e.pending }
prepend (running t) e = record e { current = some t }
prepend (settled t) e = record e { finished = t ∷ e.finished }

unfoldable pub executor_of : List Link → Executor
executor_of [] = idle
executor_of (l ∷ c) = prepend l (executor_of c)

waiting-IsSerial : (c : List Link) → All IsWaiting c → IsSerial c
waiting-IsSerial [] h = tt
waiting-IsSerial (waiting t ∷ c) (_, h) = h
waiting-IsSerial (running t ∷ c) (x, h) = absurd x
waiting-IsSerial (settled t ∷ c) (x, h) = absurd x

-- Behind a link that is not settled nothing starts or ends.
start_at-waiting : (i : ℕ) (c : List Link) → All IsWaiting c → start_at false i c ≡ c
unfolding start_at
start_at-waiting i [] h = refl
start_at-waiting zero (l ∷ c) h = refl
start_at-waiting (suc i) (waiting t ∷ c) (_, h) = ap (λ x. waiting t ∷ x) (start_at-waiting i c h)
start_at-waiting (suc i) (running t ∷ c) (x, h) = absurd x
start_at-waiting (suc i) (settled t ∷ c) (x, h) = absurd x

end_at-waiting : (i : ℕ) (c : List Link) → All IsWaiting c → end_at i c ≡ c
unfolding end_at
end_at-waiting i [] h = refl
end_at-waiting zero (waiting t ∷ c) h = refl
end_at-waiting (suc i) (waiting t ∷ c) (_, h) = ap (λ x. waiting t ∷ x) (end_at-waiting i c h)
end_at-waiting i (running t ∷ c) (x, h) = absurd x
end_at-waiting i (settled t ∷ c) (x, h) = absurd x

executor_of-waiting : (c : List Link) → All IsWaiting c → (executor_of c).current ≡ none
unfolding executor_of
executor_of-waiting [] h = refl
executor_of-waiting (waiting t ∷ c) (_, h) = executor_of-waiting c h
executor_of-waiting (running t ∷ c) (x, h) = absurd x
executor_of-waiting (settled t ∷ c) (x, h) = absurd x

executor_of-waiting_finished : (c : List Link) → All IsWaiting c → (executor_of c).finished ≡ []
unfolding executor_of
executor_of-waiting_finished [] h = refl
executor_of-waiting_finished (waiting t ∷ c) (_, h) = executor_of-waiting_finished c h
executor_of-waiting_finished (running t ∷ c) (x, h) = absurd x
executor_of-waiting_finished (settled t ∷ c) (x, h) = absurd x

-- What the executor behind a settled link does, the whole one does.
Works-settled :
    {e f : Executor} (t : Task) → Works e f → Works (prepend (settled t) e) (prepend (settled t) f)
Works-settled t (rests p) = rests (ap (prepend (settled t)) p)
Works-settled t (begins u us p q r) = begins u us p q (ap (prepend (settled t)) r)
Works-settled t (finishes u p r) = finishes u p (ap (prepend (settled t)) r)

start_at-Works :
    (i : ℕ) (c : List Link)
    → IsSerial c
    → Works (executor_of c) (executor_of (start_at true i c)) × IsSerial (start_at true i c)
unfolding start_at start is_settled executor_of
start_at-Works i [] h = (rests refl, tt)
start_at-Works zero (waiting t ∷ c) h =
    (begins t (executor_of c).pending (executor_of-waiting c h) refl refl, h)
start_at-Works zero (running t ∷ c) h = (rests refl, h)
start_at-Works zero (settled t ∷ c) h = (rests refl, h)
start_at-Works (suc i) (waiting t ∷ c) h = rw (start_at-waiting i c h) (rests refl, h)
start_at-Works (suc i) (running t ∷ c) h = rw (start_at-waiting i c h) (rests refl, h)
start_at-Works (suc i) (settled t ∷ c) h =
    let (w, s) = start_at-Works i c h in (Works-settled t w, s)

end_at-Works :
    (i : ℕ) (c : List Link)
    → IsSerial c
    → Works (executor_of c) (executor_of (end_at i c)) × IsSerial (end_at i c)
unfolding end_at end executor_of
end_at-Works i [] h = (rests refl, tt)
end_at-Works zero (waiting t ∷ c) h = (rests refl, h)
end_at-Works zero (running t ∷ c) h = (
  finishes t refl (ground (arith, executor_of-waiting c h, executor_of-waiting_finished c h)),
  waiting-IsSerial c h,
)
end_at-Works zero (settled t ∷ c) h = (rests refl, h)
end_at-Works (suc i) (waiting t ∷ c) h = rw (end_at-waiting i c h) (rests refl, h)
end_at-Works (suc i) (running t ∷ c) h = rw (end_at-waiting i c h) (rests refl, h)
end_at-Works (suc i) (settled t ∷ c) h = let (w, s) = end_at-Works i c h in (Works-settled t w, s)

prepend-add :
    (t : Task) (l : Link) (e : Executor)
    → prepend l (record e { pending = e.pending ++ t ∷ [] })
      ≡ record (prepend l e) { pending = (prepend l e).pending ++ t ∷ [] }
prepend-add t (waiting u) e = refl
prepend-add t (running u) e = refl
prepend-add t (settled u) e = refl

executor_of-add :
    (t : Task) (c : List Link)
    → executor_of (c ++ waiting t ∷ [])
      ≡ record (executor_of c) { pending = (executor_of c).pending ++ t ∷ [] }
unfolding executor_of
executor_of-add t [] = refl
executor_of-add t (l ∷ c) = ap (prepend l) (executor_of-add t c) ∙ prepend-add t l (executor_of c)

add-IsSerial : (t : Task) (c : List Link) → IsSerial c → IsSerial (c ++ waiting t ∷ [])
add-IsSerial t [] h = tt
add-IsSerial t (waiting u ∷ c) h = All-append IsWaiting c (waiting t ∷ []) h (tt, tt)
add-IsSerial t (running u ∷ c) h = All-append IsWaiting c (waiting t ∷ []) h (tt, tt)
add-IsSerial t (settled u ∷ c) h = add-IsSerial t c h

pub queue_of-put :
    (a b : Text) (c : List Link) (q : Queues)
    → queue_of a (put_queue b c q) ≡ (if b === a then c else queue_of a q)
unfolding queue_of put_queue
queue_of-put a b c q = ground (arith, get-set b a c q.agent_queues)

pub queue_of-close :
    (a b : Text) (q : Queues) → queue_of a (close b q) ≡ (if b === a then [] else queue_of a q)
unfolding queue_of close
queue_of-close a b q = ground (arith, get-delete b a q.agent_queues)

-- The executor of an agent's queue.
abbrev pub executor : Text → Queues → Executor
executor a q = executor_of (queue_of a q)

-- A step of the executor `e`, to a chain that is serial.
abbrev Serially : Executor → List Link → Type 0
Serially e c = Does e (executor_of c) × IsSerial c

-- A change of the queue of `b` is a step of the executor of `a`.
put-Serially :
    (a b : Text) (f : List Link → List Link) (q : Queues)
    → IsSerial (queue_of a q)
    → ((c : List Link) → IsSerial c → Serially (executor_of c) (f c))
    → Serially (executor a q) (queue_of a (put_queue b (f (queue_of b q)) q))
put-Serially a b f q h k = rw (queue_of-put a b (f (queue_of b q)) q) (
    if_split (Serially (executor a q)) (b === a)
      (λ same. rw ((===_iff b a).0 same) (k (queue_of a q) h)) (λ _. (works (rests refl), h)))

pub step-Does :
    (a : Text) (e : Event) (q : Queues)
    → IsSerial (queue_of a q)
    → Does (executor a q) (executor a (step e q)) × IsSerial (queue_of a (step e q))
unfolding step enqueue
step-Does a (arrives b message) q h =
    put-Serially a b (λ c. c ++ waiting (some message) ∷ []) q h
      (λ c s. (takes (some message) (executor_of-add (some message) c), add-IsSerial _ c s))
step-Does a (registers b) q h =
    put-Serially a b (λ c. c ++ waiting none ∷ []) q h
      (λ c s. (takes none (executor_of-add none c), add-IsSerial _ c s))
step-Does a (closes b) q h = rw (queue_of-close a b q) (
    if_split (Serially (executor a q)) (b === a) (λ _. (is_reset (unfold executor_of in refl), tt))
      (λ _. (works (rests refl), h)))
step-Does a (starts b place) q h =
    put-Serially a b (start_at true place) q h
      (λ c s. (works (start_at-Works place c s).0, (start_at-Works place c s).1))
step-Does a (ends b place) q h =
    put-Serially a b (end_at place) q h
      (λ c s. (works (end_at-Works place c s).0, (end_at-Works place c s).1))
step-Does a (starts_detached chain place) q h = (works (rests refl), h)
step-Does a (ends_detached chain place) q h = (works (rests refl), h)
