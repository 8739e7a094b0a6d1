-- ===== src/Timers.antt =====
-- The host's `setTimeout` and `clearTimeout`: the timers that are still to fire, each with its
-- number, the time when it is due and the callback that it runs.
use watchwarden.Base.{ℕ, ◌+◌, Bool, not, List, [], ◌∷◌, ◌++◌, ◌==◌, keep, any}

pub record Timer (C : Type 0) : Type 0 where
  pub id : ℕ
  pub due : ℕ
  pub callback : C

pub record Timers (C : Type 0) : Type 0 where
  pub next : ℕ
  pub live : List (Timer C)

module _ {C : Type 0} where
  -- The number of the new timer is the old `next`.
  unfoldable pub set_timeout : C → ℕ → Timers C → Timers C
  set_timeout callback due t = record {
    next = t.next + 1;
    live = t.live ++ record { id = t.next; due = due; callback = callback } ∷ [];
  }

  unfoldable pub clear_timeout : ℕ → Timers C → Timers C
  clear_timeout id t = record t { live = keep (λ x. not (x.id == id)) t.live }

  unfoldable pub is_live : ℕ → Timers C → Bool
  is_live id t = any (λ x. x.id == id) t.live
