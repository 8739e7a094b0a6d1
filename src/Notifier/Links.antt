-- ===== src/Notifier/Links.antt =====
-- The two parsers of image references agree (controller/src/notifications/template-helpers.ts,
-- controller/src/lib/registry-client.ts).
use watchwarden.Base.{
  ℕ, zero, suc, ◌+◌, ◌-◌, ◌≡◌, ◌≢◌, refl, sym, ◌∙◌, Bool, true, false, ◌&&◌, none, some, [], ◌∷◌,
  ◌++◌, arith, Text, text, ltb, ◌==◌, ◌<◌, if◌then◌else◌, or_else, take, drop, Bool-cases, if_split,
  inl, inr,
}
use watchwarden.Semver.{before_first, last_index_of}
use watchwarden.Semver.References.{no_tie}
use watchwarden.RegistryClient.Reference.{
  ImageRef, includes, after_first, extract_tag, without_tag, split_registry, parse_image_ref,
  is_registry,
}
use watchwarden.Notifier.Templates.{
  Components, index_of, strip_digest, has_tag, tag_of, untagged, has_registry, with_library,
  components_of, parse_image_components,
}

includes-drop : (c n : ℕ) (s : Text) → includes c (drop n s) ≡ ltb n (last_index_of c s)
unfolding includes last_index_of
includes-drop c zero [] = refl
includes-drop c zero (d ∷ s) = ground (arith, includes-drop c zero s)
includes-drop c (suc n) [] = ground arith
includes-drop c (suc n) (d ∷ s) = ground (arith, includes-drop c n s)

index_of-second :
    (c d : ℕ) (s : Text)
    → (d == c) ≡ false
    → ltb 1 (index_of c (d ∷ s)) ≡ ltb 0 (index_of c (d ∷ s))
unfolding index_of
index_of-second c d s h = ground arith

take-behind : (k d : ℕ) (s : Text) → 0 < k → take (k + 1 - 1) (d ∷ s) ≡ d ∷ take (k - 1) s
take-behind zero d s h = absurd (omega arith)
take-behind (suc k) d s h =
    let up : suc k + 1 - 1 ≡ suc k = omega arith in
    let down : suc k - 1 ≡ k = omega arith in rw (up, down) refl

take-index :
    (c : ℕ) (s : Text)
    → (if ltb 0 (index_of c s) then take (index_of c s - 1) s else s) ≡ before_first c s
unfolding index_of before_first
take-index c [] = refl
take-index c (d ∷ s) = ground (arith, take-index c s, take-behind (index_of c s) d s)

-- What the two ways to find the digest leave.
strip_digest-eq :
    (d : ℕ) (s : Text) → (d == b'@') ≡ false → strip_digest (d ∷ s) ≡ before_first b'@' (d ∷ s)
unfolding strip_digest
strip_digest-eq d s h = ground (arith, take-index b'@' (d ∷ s), index_of-second b'@' d s)

last_index_of-first : (c d : ℕ) (s : Text) → (d == c) ≡ false → last_index_of c (d ∷ s) ≢ 1
unfolding last_index_of
last_index_of-first c d s h = λ e. absurd (ground arith)

-- Whether the two ways find a tag.
has_tag-eq :
    (d : ℕ) (s : Text)
    → (d == b':') ≡ false
    → has_tag (d ∷ s) ≡ ltb (last_index_of b'/' (d ∷ s)) (last_index_of b':' (d ∷ s))
unfolding has_tag
has_tag-eq d s h = ground (
  arith,
  includes-drop b'/' (last_index_of b':' (d ∷ s) - 1) (d ∷ s),
  last_index_of-first b':' d s h,
  no_tie (d ∷ s),
)

-- The parts of a reference whose first character is "d": what the first parser takes apart is what the
-- second one does.
untagged-eq : (d : ℕ) (s : Text) → (d == b':') ≡ false → untagged (d ∷ s) ≡ without_tag (d ∷ s)
unfolding untagged without_tag
untagged-eq d s h = rw (has_tag-eq d s h) refl

tag_of-eq :
    (d : ℕ) (s : Text)
    → (d == b':') ≡ false
    → tag_of (d ∷ s) ≡ (
        if ltb (last_index_of b'/' (d ∷ s)) (last_index_of b':' (d ∷ s))
        then drop (last_index_of b':' (d ∷ s)) (d ∷ s)
        else text "latest")
unfolding tag_of
tag_of-eq d s h = rw (has_tag-eq d s h) refl

includes-index_of : (c : ℕ) (s : Text) → includes c s ≡ ltb 0 (index_of c s)
unfolding includes index_of
includes-index_of c [] = refl
includes-index_of c (d ∷ s) = ground (arith, includes-index_of c s)

has_registry-eq :
    (d : ℕ) (s : Text)
    → (d == b'/') ≡ false
    → has_registry (d ∷ s) ≡ (includes b'/' (d ∷ s) && is_registry (before_first b'/' (d ∷ s)))
unfolding has_registry is_registry
has_registry-eq d s h = rw (index_of-second b'/' d s h, includes-index_of b'/' (d ∷ s)) refl

-- A reference that is not empty and does not begin with "@", ":" or "/".
abbrev pub IsPlain : Text → Type 0
IsPlain [] = ⊥
IsPlain (d ∷ s) = ((d == b'@') ≡ false) × ((d == b':') ≡ false) × ((d == b'/') ≡ false)

with_library-library : (s : Text) → with_library (text "library/" ++ s) ≡ text "library/" ++ s
unfolding with_library includes
with_library-library s = refl

with_library-slash : (s : Text) → includes b'/' s ≡ true → with_library s ≡ s
unfolding with_library
with_library-slash s h = rw h refl

parts_of : Text → Text → Text → Components
parts_of image tag rest =
    if has_registry rest
    then components_of image (before_first b'/' rest) (after_first b'/' rest) tag
    else components_of image (text "docker.io") rest tag

Agrees : Components → ImageRef → Text → Type 0
Agrees c r tag =
    (c.registry ≡ r.registry) × (c.repository ≡ with_library r.repository) × (c.tag ≡ tag)

parts_of-Agrees :
    (image tag : Text) (d : ℕ) (t : Text)
    → (d == b'/') ≡ false
    → Agrees (parts_of image tag (d ∷ t)) (split_registry (d ∷ t)) tag
unfolding Agrees parts_of components_of split_registry
parts_of-Agrees image tag d t h = elim (Bool-cases (includes b'/' (d ∷ t))) [
  | inr no_slash ↦
      rw (has_registry-eq d t h, no_slash) (refl, sym (with_library-library (d ∷ t)), refl)
  | inl slash ↦ elim (Bool-cases (is_registry (before_first b'/' (d ∷ t)))) [
    | inl named ↦ rw (has_registry-eq d t h, slash, named) (refl, refl, refl)
    | inr other ↦
        rw (has_registry-eq d t h, slash, other)
          (refl, sym (with_library-slash (d ∷ t) slash), refl)
  ]
]

take-cons : (n d : ℕ) (s : Text) → 0 < n → (t : Text) × (take n (d ∷ s) ≡ d ∷ t)
take-cons zero d s h = absurd (omega arith)
take-cons (suc n) d s h = (take n s, refl)

behind_first : (slash colon : ℕ) → colon ≢ 1 → ltb slash colon ≡ true → 0 < colon - 1
behind_first slash colon n h = ground arith

without_tag-cons :
    (d : ℕ) (s : Text) → (d == b':') ≡ false → (t : Text) × (without_tag (d ∷ s) ≡ d ∷ t)
unfolding without_tag
without_tag-cons d s h =
    if_split (λ x. (t : Text) × (x ≡ d ∷ t))
      (ltb (last_index_of b'/' (d ∷ s)) (last_index_of b':' (d ∷ s)))
      (λ found.
        take-cons (last_index_of b':' (d ∷ s) - 1) d s
          (behind_first _ _ (last_index_of-first b':' d s h) found))
      (λ _. (s, refl))

before_first-cons :
    (d : ℕ) (s : Text) → (d == b'@') ≡ false → before_first b'@' (d ∷ s) ≡ d ∷ before_first b'@' s
unfolding before_first
before_first-cons d s h = rw h refl

components-parts :
    (image remainder rest : Text)
    → strip_digest image ≡ remainder
    → untagged remainder ≡ rest
    → parse_image_components image ≡ parts_of image (tag_of remainder) rest
unfolding parse_image_components parts_of
components-parts image remainder rest p q = rw (← q, ← p) refl

ref-parts :
    (image remainder rest : Text)
    → before_first b'@' image ≡ remainder
    → without_tag remainder ≡ rest
    → parse_image_ref image ≡ split_registry rest
unfolding parse_image_ref
ref-parts image remainder rest p q = rw (p, q) refl

or_else-if : (b : Bool) (x l : Text) → or_else (if b then some x else none) l ≡ (if b then x else l)
or_else-if true x l = refl
or_else-if false x l = refl

extract_tag-latest :
    (image remainder : Text)
    → before_first b'@' image ≡ remainder
    → or_else (extract_tag image) (text "latest") ≡ (
        if ltb (last_index_of b'/' remainder) (last_index_of b':' remainder)
        then drop (last_index_of b':' remainder) remainder
        else text "latest")
unfolding extract_tag
extract_tag-latest image remainder p = rw p (
    or_else-if (ltb (last_index_of b'/' remainder) (last_index_of b':' remainder))
      (drop (last_index_of b':' remainder) remainder) (text "latest"))

-- On a reference that is not empty and begins with none of "@", ":" and "/", the two parsers of image
-- references agree: on the registry, on the tag, where the second one makes "latest" of a tag that is
-- missing, and on the repository, except that the second one puts "library/" before a repository
-- without a slash of any registry, not only of Docker Hub.
pub parse_image_components-eq :
    (image : Text)
    → IsPlain image
    → let c = parse_image_components image in
      let r = parse_image_ref image in
      (c.registry ≡ r.registry)
      × (c.repository ≡ with_library r.repository)
      × (c.tag ≡ or_else (extract_tag image) (text "latest"))
parse_image_components-eq [] h = absurd h
parse_image_components-eq (d ∷ s) (at, colon, slash) =
    let u = before_first b'@' s in
    let (t, e) = without_tag-cons d u colon in
    let c =
      components-parts (d ∷ s) (d ∷ u) (d ∷ t) (strip_digest-eq d s at ∙ before_first-cons d s at)
        (untagged-eq d u colon ∙ e) in
    let r = ref-parts (d ∷ s) (d ∷ u) (d ∷ t) (before_first-cons d s at) e in
    let tag =
      tag_of-eq d u colon ∙ sym (extract_tag-latest (d ∷ s) (d ∷ u) (before_first-cons d s at)) in
    rw (c, r, ← tag) (unfold Agrees in parts_of-Agrees (d ∷ s) (tag_of (d ∷ u)) d t slash)
