-- ===== src/Hub/TokenBucket/Rate.antt =====
-- Bounds on what the rate limiter lets through (controller/src/ws/hub.ts, TokenBucket).
use watchwarden.Base.{
  ℕ, suc, ◌+◌, ◌*◌, ◌≤◌, ◌≡◌, refl, Bool, true, false, List, [], ◌∷◌, arith, All, every,
}
use watchwarden.Hub.TokenBucket.{full, consume, answers}

abbrev pub total : List ℕ → ℕ
total [] = 0
total (e ∷ es) = e + total es

-- The messages that pass.
abbrev pub passed : List Bool → ℕ
passed [] = 0
passed (true ∷ bs) = suc (passed bs)
passed (false ∷ bs) = passed bs

consume_bounds :
    (elapsed tokens : ℕ)
    → let (rest, ok) = consume elapsed tokens in
      (rest ≤ full) × (rest + 1000 * passed (ok ∷ []) ≤ tokens + 30 * elapsed)
unfolding consume
consume_bounds elapsed tokens = ground arith

-- From any fill, and so over any window within a connection's life, the messages that pass are at
-- most one for each token at hand plus thirty for each second; from a full bucket that is
-- 60 + 30 s in s seconds.
pub answers_rate :
    (es : List ℕ) (tokens : ℕ) → 1000 * passed (answers es tokens) ≤ tokens + 30 * total es
unfolding answers
answers_rate [] tokens = omega arith
answers_rate (e ∷ es) tokens =
    ground (arith, consume_bounds e tokens, answers_rate es (consume e tokens).0)

-- A sender that waits at least 34 ms before each message is never refused, from any fill.
pub answers_steady :
    (es : List ℕ) (tokens : ℕ) → All (λ e. 34 ≤ e) es → every (λ ok. ok) (answers es tokens) ≡ true
unfolding answers consume
answers_steady [] tokens h = refl
answers_steady (e ∷ es) tokens (p, h) = ground (arith, answers_steady es (consume e tokens).0 h)
