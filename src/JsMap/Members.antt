-- ===== src/JsMap/Members.antt =====
-- Membership in a set of texts, as a test and as a proposition.
use mathlib.Core.Bool.{Bool-set}
use mathlib.Core.List.{Mem, Nodup, Nodup-cons, Nodup-nil, not-mem-nil, mem-cons}
use mathlib.Core.Logic.Or
use watchwarden.Base.{
  true_is_not_false, ◌≡◌, sym, Bool, true, not, ◌&&◌, List, [], ◌∷◌, arith, Text, ◌===◌, ===_iff,
  Bool-cases, inl, inr,
}
use watchwarden.JsMap

pub mem→member : (x : Text) (xs : List Text) → Mem x xs → JsMap.member x xs ≡ true
unfolding JsMap.member
mem→member x [] m = absurd (not-mem-nil m)
mem→member x (y ∷ xs) m =
    Or.elim (Bool-set _ _) (mem-cons.0 m) (λ e. ground (arith, ===_iff y x))
      (λ n. ground (arith, mem→member x xs n))

pub member→mem : (x : Text) (xs : List Text) → JsMap.member x xs ≡ true → Mem x xs
unfolding JsMap.member
member→mem x [] h = cc
member→mem x (y ∷ xs) h = elim (Bool-cases (y === x)) [
  | inl same ↦ mem-cons.1 (Or.inl (sym ((===_iff y x).0 same)))
  | inr other ↦ mem-cons.1 (Or.inr (member→mem x xs (ground arith)))
]

abbrev pub are_distinct : List Text → Bool
are_distinct [] = true
are_distinct (x ∷ xs) = not (JsMap.member x xs) && are_distinct xs

pub Nodup-of : (xs : List Text) → are_distinct xs ≡ true → Nodup xs
Nodup-of [] h = Nodup-nil
Nodup-of (x ∷ xs) h =
    Nodup-cons.1
      ((λ m. true_is_not_false (mem→member x xs m) (ground arith)), Nodup-of xs (ground arith))
