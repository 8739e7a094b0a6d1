-- ===== src/Hub/Queues.antt =====
-- The queues of the agents' messages (controller/src/ws/hub.ts: `agentQueues`, the end of the message
-- handler, the registration's new tail, the close handler). A chain of promises is the list of its
-- links, oldest first: a link waits, its handler runs, or it is settled, whether its handler
-- returned or threw. A registration adds a link without a handler. A chain that the close handler
-- takes out of the map runs on by itself. The queue of a socket before its REGISTER is left out.
pub mod Serial
pub mod Ordered
pub mod Overlap
mod Tests
use watchwarden.Base.{
  ℕ, zero, suc, Bool, true, false, Option, none, some, List, [], ◌∷◌, ◌++◌, Text, if◌then◌else◌,
  or_else,
}
use watchwarden.JsMap
use watchwarden.JsMap.{Map}

-- A message, or nothing to do.
abbrev pub Task : Type 0
Task = Option Text

pub data Link : Type 0 where
  waiting : Task → Link
  running : Task → Link
  settled : Task → Link

unfoldable pub is_settled : Link → Bool
is_settled (waiting t) = false
is_settled (running t) = false
is_settled (settled t) = true

unfoldable pub start : Link → Link
start (waiting t) = running t
start (running t) = running t
start (settled t) = settled t

unfoldable pub end : Link → Link
end (waiting t) = waiting t
end (running t) = settled t
end (settled t) = settled t

-- `prev.then(process)`: the link at a place starts if the one before it is settled.
unfoldable pub start_at : (prev_settled : Bool) → ℕ → List Link → List Link
unfolding start is_settled
start_at prev_settled i [] = []
start_at prev_settled zero (l ∷ c) = (if prev_settled then start l else l) ∷ c
start_at prev_settled (suc i) (l ∷ c) = l ∷ start_at (is_settled l) i c

-- The handler at a place ends.
unfoldable pub end_at : ℕ → List Link → List Link
unfolding end
end_at i [] = []
end_at zero (l ∷ c) = end l ∷ c
end_at (suc i) (l ∷ c) = l ∷ end_at i c

pub record Queues : Type 0 where
  pub agent_queues : Map (List Link)
  pub detached : List (Text × List Link)

-- `this.agentQueues.get(agentId) ?? Promise.resolve()`
unfoldable pub queue_of : Text → Queues → List Link
queue_of agent_id q = or_else (JsMap.get agent_id q.agent_queues) []

unfoldable pub put_queue : Text → List Link → Queues → Queues
put_queue agent_id c q = record q { agent_queues = JsMap.set agent_id c q.agent_queues }

unfoldable pub enqueue : Text → Task → Queues → Queues
unfolding queue_of put_queue
enqueue agent_id t q = put_queue agent_id (queue_of agent_id q ++ waiting t ∷ []) q

-- The close event of an agent's current socket.
unfoldable pub close : Text → Queues → Queues
unfolding queue_of
close agent_id q = record {
  agent_queues = JsMap.delete agent_id q.agent_queues;
  detached = q.detached ++ (agent_id, queue_of agent_id q) ∷ [];
}

-- A detached chain goes on.
unfoldable pub change_at :
    ℕ → (List Link → List Link) → List (Text × List Link) → List (Text × List Link)
change_at n f [] = []
change_at zero f ((agent_id, c) ∷ cs) = (agent_id, f c) ∷ cs
change_at (suc n) f (c ∷ cs) = c ∷ change_at n f cs

-- What happens: a message, a registration or the end of a connection; or the link at a place starts
-- or ends, in an agent's queue or in a detached chain.
pub data Event : Type 0 where
  arrives : (agent_id message : Text) → Event
  registers : (agent_id : Text) → Event
  closes : (agent_id : Text) → Event
  starts : (agent_id : Text) (place : ℕ) → Event
  ends : (agent_id : Text) (place : ℕ) → Event
  starts_detached : (chain place : ℕ) → Event
  ends_detached : (chain place : ℕ) → Event

unfoldable pub step : Event → Queues → Queues
unfolding enqueue close queue_of put_queue start_at end_at change_at
step (arrives agent_id message) q = enqueue agent_id (some message) q
step (registers agent_id) q = enqueue agent_id none q
step (closes agent_id) q = close agent_id q
step (starts agent_id place) q = put_queue agent_id (start_at true place (queue_of agent_id q)) q
step (ends agent_id place) q = put_queue agent_id (end_at place (queue_of agent_id q)) q
step (starts_detached chain place) q = record q {
  detached = change_at chain (start_at true place) q.detached;
}
step (ends_detached chain place) q = record q {
  detached = change_at chain (end_at place) q.detached;
}

unfoldable pub run : List Event → Queues → Queues
unfolding step
run [] q = q
run (e ∷ es) q = run es (step e q)

abbrev pub no_queues : Queues
no_queues = record { agent_queues = []; detached = [] }
