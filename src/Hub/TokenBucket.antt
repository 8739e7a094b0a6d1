-- ===== src/Hub/TokenBucket.antt =====
-- The rate limiter of a connection (controller/src/ws/hub.ts, TokenBucket). A token is 1000 units,
-- so that a refill of 30 tokens a second is 30 units a millisecond, exactly; the source computes the
-- same in floating point. `elapsed` is the time since the last call, `now - this.lastRefill`, of a
-- clock that does not go back.
pub mod Rate
use watchwarden.Base.{ℕ, ◌+◌, ◌-◌, ◌*◌, Bool, true, false, List, [], ◌∷◌, leb, if◌then◌else◌, min}

abbrev pub msg_rate_limit : ℕ
msg_rate_limit = 30

abbrev pub msg_burst : ℕ
msg_burst = 60

-- The units of a new bucket.
abbrev pub full : ℕ
full = msg_burst * 1000

-- The new number of units, and whether the message may pass.
unfoldable pub consume : ℕ → ℕ → ℕ × Bool
consume elapsed tokens =
    let refilled = min full (tokens + elapsed * msg_rate_limit) in
    if leb 1000 refilled then (refilled - 1000, true) else (refilled, false)

-- A sequence of calls, each with the time since the one before: the answers.
unfoldable pub answers : List ℕ → ℕ → List Bool
unfolding consume
answers [] tokens = []
answers (elapsed ∷ es) tokens = let (rest, ok) = consume elapsed tokens in ok ∷ answers es rest
