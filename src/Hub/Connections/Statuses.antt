-- ===== src/Hub/Connections/Statuses.antt =====
-- An agent that is connected is online, and a socket that was replaced has no effect
-- (controller/src/ws/hub.ts).
use watchwarden.Base.{
  ℕ, ◌≡◌, ◌≢◌, ap, ◌∙◌, true, false, not, ◌||◌, some, arith, Text, ===_refl, ◌==◌, if◌then◌else◌,
  or_else, is_some,
}
use watchwarden.JsMap
use watchwarden.Hub.Connections.{ConnectedAgent, Hub, register, on_close, close_current}

-- A connected agent is online in the database.
abbrev pub IsOnline : Hub → Text → Type 0
IsOnline h a =
    (not (is_some (JsMap.get a h.connections)) || or_else (JsMap.get a h.statuses) false) ≡ true

abbrev AllOnline : Hub → Type 0
AllOnline h = (a : Text) → IsOnline h a

register-connected :
    (a : Text) (ws now : ℕ) (h : Hub)
    → JsMap.get a (register a ws now h).connections ≡ some (record { ws = ws; last_seen = now })
unfolding register
register-connected a ws now h =
    JsMap.get-set a a (record { ws = ws; last_seen = now }) h.connections
    ∙ ap (λ b. if b then some (record { ws = ws; last_seen = now }) else JsMap.get a h.connections)
        (===_refl a)

close_other :
    (a : Text) (old : ℕ) (c : ConnectedAgent) (k : Hub)
    → (c.ws == old) ≡ false
    → close_current a old (some c) k ≡ k
unfolding close_current
close_other a old c k e = rw e

stale_close :
    (a : Text) (old new now : ℕ) (h : Hub)
    → old ≢ new
    → on_close a old (register a new now h) ≡ register a new now h
unfolding on_close
stale_close a old new now h n =
    ap (λ o. close_current a old o (register a new now h)) (register-connected a new now h)
    ∙ close_other a old (record { ws = new; last_seen = now }) (register a new now h) (ground arith)

-- When an agent connects again before its old socket's close event fires, that event changes
-- nothing: the agent stays connected by its new socket.
pub on_close-register :
    (a : Text) (old new now : ℕ) (h : Hub)
    → old ≢ new
    → (on_close a old (register a new now h) ≡ register a new now h)
      × (JsMap.get a (on_close a old (register a new now h)).connections
          ≡ some (record { ws = new; last_seen = now }))
on_close-register a old new now h n =
    let same = stale_close a old new now h n in
    (same, ap (λ k. JsMap.get a k.connections) same ∙ register-connected a new now h)
