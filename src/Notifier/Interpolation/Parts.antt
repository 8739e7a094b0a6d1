-- ===== src/Notifier/Interpolation/Parts.antt =====
-- What the placeholders of a template become (controller/src/notifications/template-helpers.ts).
use watchwarden.Base.{
  ℕ, zero, suc, ◌≤◌, ◌≡◌, refl, ap, ◌∙◌, true, false, Option, none, some, List, [], ◌∷◌, ◌++◌,
  arith, Text, ◌==◌, or_else, is_empty, length, length-append, All, every,
}
use watchwarden.JsMap
use watchwarden.JsMap.{Map}
use watchwarden.Notifier.Interpolation.{
  is_word, take_word, close_braces, match_at, scan, interpolate_template,
}

-- A character, or a placeholder.
pub data Part : Type 0 where
  char : ℕ → Part
  placeholder : (key : Text) → Part

abbrev pub IsPart : Part → Type 0
IsPart (char c) = (c == b'{') ≡ false
IsPart (placeholder key) = (is_empty key ≡ false) × (every is_word key ≡ true)

abbrev pub template_of : List Part → Text
template_of [] = []
template_of (char c ∷ ps) = c ∷ template_of ps
template_of (placeholder key ∷ ps) = b'{' ∷ b'{' ∷ (key ++ b'}' ∷ b'}' ∷ template_of ps)

abbrev pub value_of : Map Text → List Part → Text
value_of vars [] = []
value_of vars (char c ∷ ps) = c ∷ value_of vars ps
value_of vars (placeholder key ∷ ps) = or_else (JsMap.get key vars) [] ++ value_of vars ps

take_word-append :
    (w : Text) (rest : Text)
    → every is_word w ≡ true
    → take_word (w ++ b'}' ∷ rest) ≡ (w, b'}' ∷ rest)
unfolding take_word
take_word-append [] rest h = unfold is_word in refl
take_word-append (c ∷ w) rest h = ground (arith, take_word-append w rest)

match_at-placeholder :
    (key rest : Text)
    → is_empty key ≡ false
    → every is_word key ≡ true
    → match_at (b'{' ∷ b'{' ∷ (key ++ b'}' ∷ b'}' ∷ rest)) ≡ some (key, rest)
unfolding match_at
match_at-placeholder key rest e h =
    rw (take_word-append key (b'}' ∷ rest) h) (unfold close_braces in rw e refl)

match_at-char : (c : ℕ) (s : Text) → (c == b'{') ≡ false → match_at (c ∷ s) ≡ none
unfolding match_at
match_at-char c [] h = refl
match_at-char c (d ∷ s) h = rw h refl

-- What the scan does with a match, or without one.
scan_on : ℕ → Map Text → ℕ → Text → Option (Text × Text) → Text
scan_on fuel vars c s found = elim found [
  | some (key, rest) ↦ or_else (JsMap.get key vars) [] ++ scan fuel vars rest
  | none ↦ c ∷ scan fuel vars s
]

scan-next :
    {o : Option (Text × Text)} (fuel : ℕ) (vars : Map Text) (c : ℕ) (s : Text)
    → match_at (c ∷ s) ≡ o
    → scan (suc fuel) vars (c ∷ s) ≡ scan_on fuel vars c s o
unfolding scan scan_on
scan-next fuel vars c s e = ap (scan_on fuel vars c s) e

scan-parts :
    (fuel : ℕ) (vars : Map Text) (ps : List Part)
    → length ps ≤ fuel
    → All IsPart ps
    → scan (suc fuel) vars (template_of ps) ≡ value_of vars ps
unfolding scan scan_on
scan-parts fuel vars [] l h = refl
scan-parts zero vars (p ∷ ps) l h = absurd (omega arith)
scan-parts (suc fuel) vars (char c ∷ ps) l (p, h) =
    scan-next (suc fuel) vars c (template_of ps) (match_at-char c (template_of ps) p)
    ∙ ap (λ s. c ∷ s) (scan-parts fuel vars ps (omega arith) h)
scan-parts (suc fuel) vars (placeholder key ∷ ps) l ((e, w), h) =
    scan-next (suc fuel) vars b'{' (b'{' ∷ (key ++ b'}' ∷ b'}' ∷ template_of ps))
      (match_at-placeholder key (template_of ps) e w)
    ∙ ap (λ s. or_else (JsMap.get key vars) [] ++ s) (scan-parts fuel vars ps (omega arith) h)

length-template_of : (ps : List Part) → length ps ≤ length (template_of ps)
length-template_of [] = omega arith
length-template_of (char c ∷ ps) = omega (arith, length-template_of ps)
length-template_of (placeholder key ∷ ps) =
    omega (arith, length-template_of ps, length-append key (b'}' ∷ b'}' ∷ template_of ps))

-- A template put together from characters other than "{" and from placeholders, whose keys are words:
-- each placeholder becomes the value of its key, or nothing if it has none, and all else stays.
pub interpolate_template-parts :
    (ps : List Part) (vars : Map Text)
    → All IsPart ps
    → interpolate_template (template_of ps) vars ≡ value_of vars ps
unfolding interpolate_template
interpolate_template-parts ps vars h =
    scan-parts (length (template_of ps)) vars ps (length-template_of ps) h
