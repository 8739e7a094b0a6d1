-- ===== src/Logger/Tests.antt =====
-- The theorems of the log level at concrete inputs.
use watchwarden.Base.{some, List, [], ◌∷◌, text}
use watchwarden.Logger.{Call, sets, expires, run, initial}
use watchwarden.Logger.Levels.{IsValid, run-IsValid}

abbrev calls : List Call
calls = sets (text "debug") 10 1000 ∷ expires ∷ sets (text "WARN") 0 2000 ∷ []

run-IsValid_test : IsValid (run calls (initial (some (text "debug"))))
run-IsValid_test = run-IsValid (some (text "debug")) calls
