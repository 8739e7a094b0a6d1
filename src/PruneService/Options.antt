-- ===== src/PruneService/Options.antt =====
-- The options and the outcome of a prune (controller/src/ws/prune-service.ts, parsePruneOptions and
-- execute).
use watchwarden.Base.{ℕ, ◌≤◌, ◌≡◌, ◌⊎◌, ◌↔◌, Bool, false, Option, some, arith}
use watchwarden.PruneService.Data.{PruneOptions, ok, Value, undefined, natural, boolean}
use watchwarden.PruneService.{parse_prune_options, keep_of, flag_of, options_of}

-- A value in the place of a field with a default.
abbrev pub NaturalOr : Value → ℕ → ℕ → Type 0
NaturalOr v d n = (v ≡ natural n) ⊎ ((v ≡ undefined) × (n ≡ d))

abbrev pub BooleanOr : Value → Bool → Type 0
BooleanOr v b = (v ≡ boolean b) ⊎ ((v ≡ undefined) × (b ≡ false))

keep_of_iff : (v : Value) (n : ℕ) → (keep_of v ≡ some n) ↔ (NaturalOr v 1 n × (n ≤ 10))
unfolding keep_of
keep_of_iff v n = ground arith

flag_of_iff : (v : Value) (b : Bool) → (flag_of v ≡ some b) ↔ BooleanOr v b
unfolding flag_of
flag_of_iff v b = ground arith

options_of_iff :
    (k : Option ℕ) (d t : Option Bool) (o : PruneOptions)
    → (options_of k d t ≡ ok o)
      ↔ ((k ≡ some o.keep_previous) × (d ≡ some o.dry_run) × (t ≡ some o.include_stopped))
unfolding options_of
options_of_iff k d t o = ground arith

-- The options of a request are accepted exactly when the number of images to keep is an integer
-- from 0 to 10, or missing and then 1, and each flag is a boolean, or missing and then false;
-- nothing else is turned into an option.
pub parse_prune_options_iff :
    (keep_previous dry_run include_stopped : Value) (o : PruneOptions)
    → (parse_prune_options keep_previous dry_run include_stopped ≡ ok o) ↔ (
        NaturalOr keep_previous 1 o.keep_previous
        × (o.keep_previous ≤ 10)
        × BooleanOr dry_run o.dry_run
        × BooleanOr include_stopped o.include_stopped)
unfolding parse_prune_options
parse_prune_options_iff keep_previous dry_run include_stopped o = ground (
  arith,
  options_of_iff (keep_of keep_previous) (flag_of dry_run) (flag_of include_stopped) o,
  keep_of_iff keep_previous o.keep_previous,
  flag_of_iff dry_run o.dry_run,
  flag_of_iff include_stopped o.include_stopped,
)
