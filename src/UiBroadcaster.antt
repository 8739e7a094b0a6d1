-- ===== src/UiBroadcaster.antt =====
-- controller/src/ws/ui-broadcaster.ts: events to the connected browsers. A client is a socket with
-- the state that `broadcast` reads; whether its `send` throws is given with it. The clients are a
-- set of sockets, told apart by their numbers.
mod Delivery
mod Tests
use watchwarden.Base.{
  ℕ, ◌≡◌, Bool, true, false, not, ◌&&◌, ◌||◌, List, [], ◌∷◌, ◌++◌, ◌==◌, ltb, if◌then◌else◌, keep,
  any,
}

pub record Client : Type 0 where
  pub id : ℕ
  pub ready_state : ℕ
  pub buffered_amount : ℕ
  pub send_throws : Bool

-- The clients, and the clients to which events went, in order.
pub record Broadcaster : Type 0 where
  pub clients : List Client
  pub sent : List ℕ

abbrev pub backpressure_limit : ℕ
backpressure_limit = 1048576

-- `clients.delete(client)`
unfoldable pub disconnect : ℕ → Broadcaster → Broadcaster
disconnect id s = record s { clients = keep (λ c. not (c.id == id)) s.clients }

-- `clients.add(socket)`
unfoldable pub handle_connection : Client → Broadcaster → Broadcaster
handle_connection c s =
    if any (λ d. d.id == c.id) s.clients then s else record s { clients = s.clients ++ c ∷ [] }

-- One round of the loop.
send_to : Client → Broadcaster → Broadcaster
unfolding disconnect
send_to client s =
    if client.ready_state == 1
    then if ltb backpressure_limit client.buffered_amount
      then s
      else if client.send_throws
      then disconnect client.id s
      else record s { sent = s.sent ++ client.id ∷ [] }
    else disconnect client.id s

send_each : List Client → Broadcaster → Broadcaster
unfolding send_to
send_each [] s = s
send_each (client ∷ snapshot) s = send_each snapshot (send_to client s)

-- The loop runs over a copy of the set.
unfoldable pub broadcast : Broadcaster → Broadcaster
unfolding send_each
broadcast s = send_each s.clients s
