-- ===== src/Semver/References.antt =====
-- The parts of an image reference (controller/src/lib/semver.ts, extractExplicitTag,
-- extractRepository).
use watchwarden.Base.{
  ℕ, zero, suc, ◌+◌, ◌-◌, ◌≤◌, ◌<◌, ◌≡◌, ◌≢◌, false, [], ◌∷◌, ◌++◌, arith, Text, some, ltb, length,
  if◌then◌else◌, is_empty, refl, take, drop, ap, take-append,
}
use watchwarden.Semver.{
  last_index_of, before_first, is_digest_only, non_empty, extract_explicit_tag, extract_repository,
  explicit_tag_of, repository_of,
}

-- The character does not occur.
abbrev pub Free : ℕ → Text → Type 0
Free c s = last_index_of c s ≡ 0

last_index_of-append :
    (c : ℕ) (s t : Text)
    → last_index_of c (s ++ t)
      ≡ (if ltb 0 (last_index_of c t) then length s + last_index_of c t else last_index_of c s)
unfolding last_index_of
last_index_of-append c [] t = ground arith
last_index_of-append c (d ∷ s) t = ground (arith, last_index_of-append c s t)

last_index_of-le : (c : ℕ) (s : Text) → last_index_of c s ≤ length s
unfolding last_index_of
last_index_of-le c [] = omega arith
last_index_of-le c (d ∷ s) = ground (arith, last_index_of-le c s)

-- Past the last occurrence there is none.
last_index_of-drop : (c n : ℕ) (s : Text) → last_index_of c s ≤ n → last_index_of c (drop n s) ≡ 0
unfolding last_index_of
last_index_of-drop c zero s h = omega arith
last_index_of-drop c (suc n) [] h = refl
last_index_of-drop c (suc n) (d ∷ s) h = last_index_of-drop c n s (ground arith)

-- A text splits at the last occurrence.
last_index_of-split :
    (c n : ℕ) (s : Text) → last_index_of c s ≡ suc n → s ≡ take n s ++ c ∷ drop (suc n) s
unfolding last_index_of
last_index_of-split c n [] h = absurd (omega arith)
last_index_of-split c zero (d ∷ s) h = ground arith
last_index_of-split c (suc n) (d ∷ s) h = ap (λ r. d ∷ r) (last_index_of-split c n s (ground arith))

last_index_of_split :
    (c : ℕ) (s : Text)
    → 0 < last_index_of c s
    → s ≡ take (last_index_of c s - 1) s ++ c ∷ drop (last_index_of c s) s
last_index_of_split c s h =
    let e : last_index_of c s ≡ suc (last_index_of c s - 1) = omega arith in
    let split = last_index_of-split c (last_index_of c s - 1) s e in ground (arith, split)

last_index_of_at : (c : ℕ) (s t : Text) → Free c t → last_index_of c (s ++ c ∷ t) ≡ suc (length s)
unfolding last_index_of
last_index_of_at c s t h = ground (arith, last_index_of-append c s (c ∷ t))

drop_past : (s : Text) (c : ℕ) (t : Text) → drop (suc (length s)) (s ++ c ∷ t) ≡ t
drop_past [] c t = refl
drop_past (d ∷ s) c t = drop_past s c t

before_first-Free : (c : ℕ) (s : Text) → Free c s → before_first c s ≡ s
unfolding before_first last_index_of
before_first-Free c [] h = refl
before_first-Free c (d ∷ s) h = ground (arith, before_first-Free c s)

before_first-append : (c : ℕ) (s t : Text) → Free c s → before_first c (s ++ c ∷ t) ≡ s
unfolding before_first last_index_of
before_first-append c [] t h = ground arith
before_first-append c (d ∷ s) t h = ground (arith, before_first-append c s t)

-- No place holds both characters.
pub no_tie : (s : Text) → 0 < last_index_of b':' s → last_index_of b':' s ≢ last_index_of b'/' s
unfolding last_index_of
no_tie [] h e = absurd (omega arith)
no_tie (d ∷ s) h e = ground (arith, no_tie s)

explicit_tag_of_parts :
    (s tag : Text)
    → explicit_tag_of s ≡ some tag
    → (s ≡ repository_of s ++ b':' ∷ tag) × (tag ≢ []) × Free b':' tag × Free b'/' tag
unfolding explicit_tag_of repository_of non_empty
explicit_tag_of_parts s tag e = ground (
  arith,
  no_tie s,
  last_index_of_split b':' s,
  last_index_of-drop b':' (last_index_of b':' s) s,
  last_index_of-drop b'/' (last_index_of b':' s) s,
)

last_index_of_cons : (tag : Text) → Free b'/' tag → Free b'/' (b':' ∷ tag)
unfolding last_index_of
last_index_of_cons tag h = ground arith

-- A reference put together from a repository and a tag.
parts_of_append :
    (repo tag : Text)
    → Free b':' tag
    → Free b'/' tag
    → tag ≢ []
    → (explicit_tag_of (repo ++ b':' ∷ tag) ≡ some tag)
      × (repository_of (repo ++ b':' ∷ tag) ≡ repo)
unfolding explicit_tag_of repository_of non_empty
parts_of_append repo tag tc ts ne = ground (
  arith,
  last_index_of_at b':' repo tag tc,
  last_index_of-append b'/' repo (b':' ∷ tag),
  last_index_of_cons tag,
  last_index_of-le b'/' repo,
  drop_past repo b':' tag,
  take-append repo (b':' ∷ tag),
)

-- Without its digest, a reference with an explicit tag is its repository, a colon and the tag;
-- the tag is not empty, and holds no colon and no slash.
pub extract_explicit_tag_parts :
    (image_ref tag : Text)
    → extract_explicit_tag image_ref ≡ some tag
    → (before_first b'@' image_ref ≡ extract_repository image_ref ++ b':' ∷ tag)
      × (tag ≢ [])
      × Free b':' tag
      × Free b'/' tag
unfolding extract_explicit_tag extract_repository
extract_explicit_tag_parts image_ref tag e =
    ground (arith, explicit_tag_of_parts (before_first b'@' image_ref) tag)

Free-whole : (repo tag : Text) → Free b'@' repo → Free b'@' tag → Free b'@' (repo ++ b':' ∷ tag)
unfolding last_index_of
Free-whole repo tag h k = ground (arith, last_index_of-append b'@' repo (b':' ∷ tag))

is_empty-append : (s : Text) (c : ℕ) (t : Text) → is_empty (s ++ c ∷ t) ≡ false
is_empty-append [] c t = refl
is_empty-append (d ∷ s) c t = refl

-- Taking a reference apart gives back the repository and the tag that it was put together from,
-- with or without a digest behind them.
pub extract-round_trip :
    (repo tag digest : Text)
    → Free b'@' repo
    → Free b'@' tag
    → Free b':' tag
    → Free b'/' tag
    → tag ≢ []
    → is_digest_only (repo ++ b':' ∷ tag) ≡ false
    → is_digest_only ((repo ++ b':' ∷ tag) ++ b'@' ∷ digest) ≡ false
    → (extract_explicit_tag (repo ++ b':' ∷ tag) ≡ some tag)
      × (extract_repository (repo ++ b':' ∷ tag) ≡ repo)
      × (extract_explicit_tag ((repo ++ b':' ∷ tag) ++ b'@' ∷ digest) ≡ some tag)
      × (extract_repository ((repo ++ b':' ∷ tag) ++ b'@' ∷ digest) ≡ repo)
unfolding extract_explicit_tag extract_repository
extract-round_trip repo tag digest ra ta tc ts ne nd nd' =
    let whole = repo ++ b':' ∷ tag in
    ground (
      arith,
      parts_of_append repo tag tc ts ne,
      before_first-Free b'@' whole (Free-whole repo tag ra ta),
      before_first-append b'@' whole digest (Free-whole repo tag ra ta),
      is_empty-append repo b':' tag,
      is_empty-append whole b'@' digest,
    )
