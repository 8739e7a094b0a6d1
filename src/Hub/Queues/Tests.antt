-- ===== src/Hub/Queues/Tests.antt =====
-- The theorems on the queues at concrete inputs.
use watchwarden.Base.{ℕ, ◌+◌, ◌≤◌, ◌≡◌, List, [], ◌∷◌, ◌++◌, text}
use watchwarden.JsMap
use watchwarden.Hub.Queues.{Event, arrives, starts, ends, step, run, no_queues, queue_of}
use watchwarden.Hub.Queues.Serial.{executor}
use watchwarden.Hub.Queues.Ordered.{arrived, under_way, handlers, next, run-in_order}
use watchwarden.Hub.Queues.Overlap.{all_handlers, comes_back, comes_back-overlaps}

-- Two messages, the first of which is handled, and the second begins.
abbrev events : List Event
events =
    arrives (text "a1") (text "HEARTBEAT")
    ∷ arrives (text "a1") (text "CHECK_RESULT")
    ∷ starts (text "a1") 0
    ∷ ends (text "a1") 0
    ∷ starts (text "a1") 1
    ∷ []

run-in_order_example :
    let q = run events no_queues in
    let e = executor (text "a1") q in
    (e.finished ++ (under_way e.current ++ e.pending) ≡ arrived (text "a1") events [])
    × (handlers (queue_of (text "a1") q) ≤ 1)
    × ((place : ℕ) × ((executor (text "a1") (step (starts (text "a1") place) q)).current ≡ next e))
run-in_order_example = run-in_order (text "a1") events

comes_back-overlaps_example :
    all_handlers
      (text "a1")
      (run (comes_back (text "a1") (text "HEARTBEAT")) (run events no_queues))
    ≡ 1 + all_handlers (text "a1") (run events no_queues)
comes_back-overlaps_example =
    comes_back-overlaps (text "a1") (text "HEARTBEAT") (run events no_queues)
