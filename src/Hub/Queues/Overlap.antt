-- ===== src/Hub/Queues/Overlap.antt =====
-- An agent that comes back gets a queue of its own (controller/src/ws/hub.ts, the close handler).
use watchwarden.Base.{
  ℕ, ◌+◌, ◌≡◌, refl, none, some, List, [], ◌∷◌, ◌++◌, arith, Text, ◌===◌, ===_refl, if◌then◌else◌,
}
use watchwarden.JsMap.{get-set, get-delete}
use watchwarden.Hub.Queues.{
  Link, running, settled, Queues, queue_of, Event, arrives, registers, closes, starts, ends, step,
  run,
}
use watchwarden.Hub.Queues.Ordered.{handlers}

-- The handlers of an agent that run, also in chains that were detached from it.
abbrev detached_handlers : Text → List (Text × List Link) → ℕ
detached_handlers a [] = 0
detached_handlers a ((b, c) ∷ cs) = (if b === a then handlers c else 0) + detached_handlers a cs

abbrev pub all_handlers : Text → Queues → ℕ
all_handlers a q = handlers (queue_of a q) + detached_handlers a q.detached

detached_handlers-append :
    (a : Text) (cs : List (Text × List Link)) (c : List Link)
    → detached_handlers a (cs ++ (a, c) ∷ []) ≡ detached_handlers a cs + handlers c
detached_handlers-append a [] c = rw (===_refl a) (omega arith)
detached_handlers-append a ((b, d) ∷ cs) c = omega (arith, detached_handlers-append a cs c)

-- An agent that comes back, once its connection has ended, and the first message that it sends.
abbrev pub comes_back : Text → Text → List Event
comes_back a message =
    closes a ∷ registers a ∷ starts a 0 ∷ ends a 0 ∷ arrives a message ∷ starts a 1 ∷ []

comes_back-queue :
    (a message : Text) (q : Queues)
    → let q' = run (comes_back a message) q in
      (queue_of a q' ≡ settled none ∷ running (some message) ∷ [])
      × (q'.detached ≡ q.detached ++ (a, queue_of a q) ∷ [])
unfolding run step
comes_back-queue a message q = (simp (get-set, get-delete, ===_refl), refl)

-- When an agent's connection has ended and it comes back, its next message can be handled while the
-- handlers of its former queue still run, whatever state the queues are in.
pub comes_back-overlaps :
    (a message : Text) (q : Queues)
    → all_handlers a (run (comes_back a message) q) ≡ 1 + all_handlers a q
comes_back-overlaps a message q =
    let (p, d) = comes_back-queue a message q in
    rw (p, d) (omega (arith, detached_handlers-append a q.detached (queue_of a q)))
