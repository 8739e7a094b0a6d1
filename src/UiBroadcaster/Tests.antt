-- ===== src/UiBroadcaster/Tests.antt =====
-- The theorem of the broadcast at a concrete input.
use watchwarden.Base.{◌≡◌, false, not, [], ◌∷◌, ◌++◌, map, arith, keep}
use watchwarden.UiBroadcaster.{Broadcaster, broadcast}
use watchwarden.UiBroadcaster.Delivery.{IsDistinct, is_served, is_dropped, broadcast_lem}

abbrev three_clients : Broadcaster
three_clients = record {
  clients =
      record { id = 1; ready_state = 1; buffered_amount = 0; send_throws = false }
      ∷ record { id = 2; ready_state = 3; buffered_amount = 0; send_throws = false }
      ∷ record { id = 3; ready_state = 1; buffered_amount = 2000000; send_throws = false }
      ∷ [];
  sent = [];
}

IsDistinct-clients : IsDistinct three_clients.clients
IsDistinct-clients = ((omega arith, (omega arith, tt)), ((omega arith, tt), (tt, tt)))

broadcast_lem_example :
    ((broadcast three_clients).sent
      ≡ three_clients.sent ++ map (λ c. c.id) (keep is_served three_clients.clients))
    × ((broadcast three_clients).clients ≡ keep (λ c. not (is_dropped c)) three_clients.clients)
broadcast_lem_example = broadcast_lem three_clients IsDistinct-clients
