-- ===== src/Logger/Levels.antt =====
-- What the log level can be set to, and when the debug mode ends (controller/src/lib/logger.ts,
-- setLogLevel).
use watchwarden.Base.{
  sym, ap, Bool-cases, ℕ, ◌+◌, ◌*◌, ◌≡◌, refl, Bool, true, ◌&&◌, Option, none, some, List, [], ◌∷◌,
  arith, Text, text, ◌===◌, ltb, inl, inr,
}
use mathlib.Core.Path.{subst}
use watchwarden.Timers.{Timer, set_timeout, clear_timeout}
use watchwarden.Logger.{
  LogLevel, error, warn, info, debug, Logger, level_of, known_level, parse_level, initial,
  clear_debug, apply_level, is_debug, set_log_level, Call, sets, expires, fire_first, step, run,
  expire, level_number,
}

and_left : (a b : Bool) → (a && b) ≡ true → a ≡ true
and_left a b h = ground arith

debug_of_is_debug : (level : LogLevel) → is_debug level ≡ true → level ≡ debug
unfolding is_debug
debug_of_is_debug level h = ground arith

-- At most one timer is pending, and just while the debug mode has an end.
abbrev pub DebugOk : Option ℕ → Logger → Type 0
DebugOk none s = (s.timers.live ≡ []) × (s.debug_until ≡ none)
DebugOk (some id) s =
    (due : ℕ) × (s.timers.live ≡ record { id = id; due = due; callback = tt } ∷ [])
    × (s.debug_until ≡ some due)
    × (s.current_level ≡ debug)

abbrev pub IsValid : Logger → Type 0
IsValid s = DebugOk s.debug_timer s

clear_debug-live :
    (o : Option ℕ) (s : Logger)
    → s.debug_timer ≡ o
    → DebugOk o s
    → ((clear_debug o s).timers.live ≡ [])
      × ((clear_debug o s).debug_until ≡ none)
      × ((clear_debug o s).debug_timer ≡ none)
unfolding clear_debug clear_timeout
clear_debug-live none s e (a, b) = (a, b, e)
clear_debug-live (some id) s e (due, a, b, c) = (rw a (ground arith), refl, refl)

apply_level-IsValid :
    (o : Option LogLevel) (ttl now : ℕ) (s : Logger) → IsValid s → IsValid (apply_level o ttl now s)
unfolding apply_level is_debug set_timeout
apply_level-IsValid none ttl now s v = v
apply_level-IsValid (some level) ttl now s v =
    let (empty, ended, off) = clear_debug-live s.debug_timer s refl v in
    elim (Bool-cases (is_debug level && ltb 0 ttl)) [
      | inl timed ↦
          rw (timed, apply_level)
            (now + ttl * 60000, rw empty refl, refl, debug_of_is_debug level (and_left _ _ timed))
      | inr plain ↦ rw (plain, apply_level, off) (empty, ended)
    ]

set_log_level-IsValid :
    (level : Text) (ttl now : ℕ) (s : Logger) → IsValid s → IsValid (set_log_level level ttl now s)
unfolding set_log_level
set_log_level-IsValid level ttl now s v = apply_level-IsValid (parse_level level) ttl now s v

expire-IsValid :
    (o : Option ℕ) (s : Logger)
    → s.debug_timer ≡ o
    → DebugOk o s
    → IsValid (fire_first s.timers.live s)
unfolding fire_first expire clear_timeout
expire-IsValid none s e (a, b) =
    subst IsValid (ap (λ l. fire_first l s) (sym a)) (subst (λ o. DebugOk o s) (sym e) (a, b))
expire-IsValid (some id) s e (due, a, b, c) =
    let timer : Timer (Unit {0}) = record { id = id; due = due; callback = tt } in
    subst IsValid (ap (λ l. fire_first l s) (sym a)) (ground (arith, a), refl)

step-IsValid : (c : Call) (s : Logger) → IsValid s → IsValid (step c s)
unfolding step
step-IsValid (sets level ttl now) s v = set_log_level-IsValid level ttl now s v
step-IsValid expires s v = expire-IsValid s.debug_timer s refl v

run_from : (cs : List Call) (s : Logger) → IsValid s → IsValid (run cs s)
unfolding run
run_from [] s v = v
run_from (c ∷ cs) s v = run_from cs (step c s) (step-IsValid c s v)

-- After any calls, whatever the environment asked for at the start, there is at most one pending
-- timer; there is one just when the debug mode has an end, which is the time at which the timer is
-- due, and the level is then "debug".
pub run-IsValid : (env : Option Text) (cs : List Call) → IsValid (run cs (initial env))
unfolding initial
run-IsValid env cs = run_from cs (initial env) (refl, refl)

abbrev pub name_of : LogLevel → Text
name_of error = text "error"
name_of warn = text "warn"
name_of info = text "info"
name_of debug = text "debug"

known_of : Text → Option LogLevel
unfolding known_level level_of ◌===◌ level_number
known_of name = known_level (level_of name)
