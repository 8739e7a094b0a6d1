-- ===== src/UiBroadcaster/Delivery.antt =====
-- Who gets an event, and who stays connected (controller/src/ws/ui-broadcaster.ts, broadcast).
use mathlib.Core.List.{append_assoc, append-nil}
use watchwarden.Base.{
  ℕ, ◌≡◌, ◌≢◌, refl, ap, ◌∙◌, sym, Bool, true, false, not, ◌&&◌, ◌||◌, List, [], ◌∷◌, ◌++◌, map,
  arith, ◌==◌, ltb, if◌then◌else◌, keep, All,
}
use watchwarden.UiBroadcaster.{
  Client, Broadcaster, backpressure_limit, disconnect, send_to, send_each, broadcast,
}

-- An open client whose buffer is not full and whose send works.
unfoldable pub is_served : Client → Bool
is_served c =
    c.ready_state == 1 && not (ltb backpressure_limit c.buffered_amount) && not c.send_throws

-- A client that is closed, or whose send fails.
unfoldable pub is_dropped : Client → Bool
is_dropped c =
    not (c.ready_state == 1) || (not (ltb backpressure_limit c.buffered_amount) && c.send_throws)

abbrev pub IsDistinct : List Client → Type 0
IsDistinct [] = Unit
IsDistinct (c ∷ cs) = All (λ d. d.id ≢ c.id) cs × IsDistinct cs

-- A client of the snapshot that is dropped.
drops : List Client → ℕ → Bool
drops [] id = false
drops (c ∷ cs) id = (is_dropped c && c.id == id) || drops cs id

send_each-sent :
    (cs : List Client) (s : Broadcaster)
    → (send_each cs s).sent ≡ s.sent ++ map (λ c. c.id) (keep is_served cs)
unfolding send_each send_to disconnect is_served
send_each-sent [] s = sym (append-nil _)
send_each-sent (c ∷ cs) s = ground (
  arith,
  send_each-sent cs (send_to c s),
  append_assoc s.sent (c.id ∷ []) (map (λ c. c.id) (keep is_served cs)),
)

keep-keep :
    (p q : Client → Bool) (cs : List Client) → keep p (keep q cs) ≡ keep (λ c. q c && p c) cs
keep-keep p q [] = refl
keep-keep p q (c ∷ cs) = ground (arith, keep-keep p q cs)

keep-ext :
    (p q : Client → Bool) (cs : List Client) → All (λ c. p c ≡ q c) cs → keep p cs ≡ keep q cs
keep-ext p q [] h = refl
keep-ext p q (c ∷ cs) (e, h) = ground (arith, keep-ext p q cs h)

keep_all : (cs : List Client) → keep (λ c. true) cs ≡ cs
keep_all [] = refl
keep_all (c ∷ cs) = ap (λ r. c ∷ r) (keep_all cs)

send_to-clients :
    (c : Client) (s : Broadcaster)
    → (send_to c s).clients
      ≡ (if is_dropped c then keep (λ d. not (d.id == c.id)) s.clients else s.clients)
unfolding send_to disconnect is_dropped
send_to-clients c s = ground arith

keep-drops :
    (c : Client) (cs ds : List Client)
    → keep
        (λ d. not (drops cs d.id))
        (if is_dropped c then keep (λ d. not (d.id == c.id)) ds else ds)
      ≡ keep (λ d. not (drops (c ∷ cs) d.id)) ds
unfolding drops
keep-drops c cs [] = ground arith
keep-drops c cs (d ∷ ds) = ground (arith, keep-drops c cs ds)

send_each-clients :
    (cs : List Client) (s : Broadcaster)
    → (send_each cs s).clients ≡ keep (λ d. not (drops cs d.id)) s.clients
unfolding send_each drops
send_each-clients [] s = sym (keep_all s.clients)
send_each-clients (c ∷ cs) s =
    send_each-clients cs (send_to c s)
    ∙ ap (keep (λ d. not (drops cs d.id))) (send_to-clients c s)
    ∙ keep-drops c cs s.clients

drops_absent : (cs : List Client) (id : ℕ) → All (λ d. d.id ≢ id) cs → drops cs id ≡ false
unfolding drops
drops_absent [] id h = refl
drops_absent (c ∷ cs) id (p, h) = ground (arith, drops_absent cs id h)

drops_tail :
    (c : Client) (cs ds : List Client)
    → All (λ d. d.id ≢ c.id) ds
    → All (λ d. not (drops cs d.id) ≡ not (is_dropped d)) ds
    → All (λ d. not (drops (c ∷ cs) d.id) ≡ not (is_dropped d)) ds
unfolding drops
drops_tail c cs [] p h = tt
drops_tail c cs (d ∷ ds) (n, p) (e, h) = (ground arith, drops_tail c cs ds p h)

-- In a set of clients each one is dropped by its own state.
drops_own :
    (cs : List Client) → IsDistinct cs → All (λ d. not (drops cs d.id) ≡ not (is_dropped d)) cs
unfolding drops
drops_own [] h = tt
drops_own (c ∷ cs) (p, h) =
    (ground (arith, drops_absent cs c.id p), drops_tail c cs cs p (drops_own cs h))

-- An event goes to each client that is open, has at most 1 MB of unsent data and takes it, in the
-- order of connection and once to each; afterwards the clients are those that are open and whose
-- send did not fail. A client with a full buffer stays connected and gets nothing.
pub broadcast_lem :
    (s : Broadcaster)
    → IsDistinct s.clients
    → ((broadcast s).sent ≡ s.sent ++ map (λ c. c.id) (keep is_served s.clients))
      × ((broadcast s).clients ≡ keep (λ c. not (is_dropped c)) s.clients)
unfolding broadcast
broadcast_lem s h = (
  send_each-sent s.clients s,
  send_each-clients s.clients s ∙ keep-ext _ _ s.clients (drops_own s.clients h),
)
