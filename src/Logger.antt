-- ===== src/Logger.antt =====
-- controller/src/lib/logger.ts: the log level, its time-limited debug mode and what is logged.
-- `toLowerCase` is that of ASCII, which decides the four names alike. File logging and redaction
-- are left out, and so are the names that every JavaScript object inherits, such as "constructor".
use watchwarden.Base.{
  ℕ, ◌+◌, ◌-◌, ◌*◌, Bool, true, false, not, ◌&&◌, Option, none, some, List, [], ◌∷◌, map, Text,
  text, ◌===◌, ltb, leb, if◌then◌else◌, or_else,
}
use watchwarden.Timers.{Timer, Timers, set_timeout, clear_timeout}
mod Levels
mod Tests

pub data LogLevel : Type 0 where
  error warn info debug : LogLevel

-- The numbers in `LEVELS`.
unfoldable pub level_number : LogLevel → ℕ
level_number error = 0
level_number warn = 1
level_number info = 2
level_number debug = 3

lower : ℕ → ℕ
lower c = if leb b'A' c && leb c b'Z' then c + 32 else c

-- The key of `LEVELS` that a text is.
level_of : Text → Option LogLevel
level_of s =
    if s === text "error"
    then some error
    else if s === text "warn"
    then some warn
    else if s === text "info"
    then some info
    else if s === text "debug"
    then some debug
    else none

unfoldable pub to_lower_case : Text → Text
unfolding lower
to_lower_case s = map lower s

-- `if (!LEVELS[normalized])` passes over a key that is missing, and over the number 0.
known_level : Option LogLevel → Option LogLevel
unfolding level_number
known_level none = none
known_level (some level) = if ltb 0 (level_number level) then some level else none

unfoldable pub parse_level : Text → Option LogLevel
unfolding level_of to_lower_case known_level
parse_level level = known_level (level_of (to_lower_case level))

-- The module's variables; the one timer reverts the debug mode.
pub record Logger : Type 0 where
  pub current_level : LogLevel
  pub debug_until : Option ℕ
  pub debug_timer : Option ℕ
  pub timers : Timers (Unit {0})

-- The start: the variable WW_LOG_LEVEL if it names a level, else "info".
unfoldable pub initial : Option Text → Logger
unfolding parse_level
initial env = record {
  current_level = or_else (parse_level (or_else env (text "info"))) info;
  debug_until = none;
  debug_timer = none;
  timers = record { next = 0; live = [] };
}

clear_debug : Option ℕ → Logger → Logger
unfolding clear_timeout
clear_debug none s = s
clear_debug (some id) s = record s {
  debug_until = none;
  debug_timer = none;
  timers = clear_timeout id s.timers;
}

is_debug : LogLevel → Bool
is_debug debug = true
is_debug _ = false

apply_level : Option LogLevel → ℕ → ℕ → Logger → Logger
unfolding clear_debug is_debug set_timeout
apply_level none ttl_minutes now s = s
apply_level (some level) ttl_minutes now s =
    let cleared = clear_debug s.debug_timer s in
    let set = record cleared { current_level = level } in
    if is_debug level && ltb 0 ttl_minutes
    then record set {
      debug_until = some (now + ttl_minutes * 60000);
      debug_timer = some set.timers.next;
      timers = set_timeout tt (now + ttl_minutes * 60000) set.timers;
    }
    else set

-- A missing `ttlMinutes` is 0, which is treated alike.
unfoldable pub set_log_level : Text → ℕ → ℕ → Logger → Logger
unfolding parse_level apply_level
set_log_level level ttl_minutes now s = apply_level (parse_level level) ttl_minutes now s

-- The debug timer fires.
unfoldable pub expire : Timer (Unit {0}) → Logger → Logger
unfolding clear_timeout
expire timer s = record s {
  current_level = info;
  debug_until = none;
  debug_timer = none;
  timers = clear_timeout timer.id s.timers;
}

unfoldable pub should_log : LogLevel → Logger → Bool
unfolding level_number
should_log level s = leb (level_number level) (level_number s.current_level)

-- The calls of the module, and the timer.
pub data Call : Type 0 where
  sets : (level : Text) (ttl_minutes now : ℕ) → Call
  expires : Call

-- The pending timer fires, if there is one.
fire_first : List (Timer (Unit {0})) → Logger → Logger
unfolding expire
fire_first [] s = s
fire_first (timer ∷ _) s = expire timer s

unfoldable pub step : Call → Logger → Logger
unfolding set_log_level fire_first
step (sets level ttl_minutes now) s = set_log_level level ttl_minutes now s
step expires s = fire_first s.timers.live s

unfoldable pub run : List Call → Logger → Logger
unfolding step
run [] s = s
run (c ∷ cs) s = run cs (step c s)
