-- ===== src/Semver.antt =====
-- controller/src/lib/semver.ts: version parts of a tag, update levels, and the parts of an image
-- reference. A string is the list of its code units. An index that JavaScript gives as -1 or i is
-- 0 or i + 1 here, so that all of them are natural numbers.
pub mod Levels
pub mod References
mod Tests
use watchwarden.Base.{
  ℕ, zero, suc, ◌+◌, ◌-◌, ◌*◌, ◌≡◌, Bool, true, false, not, ◌&&◌, ◌||◌, Option, none, some, List,
  [], ◌∷◌, ◌++◌, Text, text, ◌===◌, ltb, leb, ◌==◌, if◌then◌else◌, or_else, length, is_empty,
  get_or, take, drop, replicate,
}

-- The white space that `Number.parseInt` skips.
unfoldable pub is_space : ℕ → Bool
is_space c =
    (leb 9 c && leb c 13)
    || c == 32
    || c == 160
    || c == 0x1680
    || (leb 0x2000 c && leb c 0x200a)
    || c == 0x2028
    || c == 0x2029
    || c == 0x202f
    || c == 0x205f
    || c == 0x3000
    || c == 0xfeff

is_digit : ℕ → Bool
is_digit c = leb b'0' c && leb c b'9'

-- The number that the leading digits write, given the value of those already read.
digits_from : ℕ → Text → ℕ
unfolding is_digit
digits_from n [] = n
digits_from n (c ∷ s) =
    let more = digits_from (n * 10 + (c - b'0')) s in if is_digit c then more else n

-- A number begins with a digit.
unsigned_int : Text → Option ℕ
unfolding digits_from is_digit
unsigned_int [] = none
unsigned_int (c ∷ s) = if is_digit c then some (digits_from 0 (c ∷ s)) else none

skip_plus : Text → Text
skip_plus [] = []
skip_plus (c ∷ s) = if c == b'+' then s else c ∷ s

unfoldable pub skip_space : Text → Text
unfolding is_space
skip_space [] = []
skip_space (c ∷ s) = let rest = skip_space s in if is_space c then rest else c ∷ s

-- `Number.parseInt(seg, 10)`, `none` for NaN. A segment holds no minus sign: it was split there.
unfoldable parse_int : Text → Option ℕ
unfolding unsigned_int skip_plus skip_space
parse_int seg = unsigned_int (skip_plus (skip_space seg))

-- One character put in front of a list of parts; a separator opens a new part.
add_char : Bool → ℕ → List Text → List Text
add_char true c parts = [] ∷ parts
add_char false c [] = (c ∷ []) ∷ []
add_char false c (part ∷ parts) = (c ∷ part) ∷ parts

-- `s.split(/[…]/)` at each character of a class.
split_at : (ℕ → Bool) → Text → List Text
unfolding add_char
split_at sep [] = [] ∷ []
split_at sep (c ∷ s) = add_char (sep c) c (split_at sep s)

is_separator : ℕ → Bool
is_separator c = c == b'.' || c == b'-' || c == b'_'

-- `tag.replace(/^[vV]/, '')`
strip_v : Text → Text
strip_v [] = []
strip_v (c ∷ s) = if c == b'v' || c == b'V' then s else c ∷ s

-- The loop over the segments: it stops at the first one that is no number once there is a number.
collect : List ℕ → List Text → List ℕ
collect parts [] = parts
collect parts (seg ∷ segs) = elim (parse_int seg) [
  | some n ↦ collect (parts ++ n ∷ []) segs
  | none ↦ let skipped = collect parts segs in if is_empty parts then skipped else parts
]

unfoldable pub extract_version_parts : Text → List ℕ
unfolding collect split_at is_separator strip_v parse_int
extract_version_parts tag = collect [] (split_at is_separator (strip_v tag))

-- `while (parts.length < 3) parts.push(0)`
pad : List ℕ → List ℕ
pad parts = parts ++ replicate (3 - length parts) 0

-- The loop `for (let i = 0; i < 3; i++)` of the levels "major", "all" and the default, with the
-- rounds left.
increased_from : ℕ → ℕ → List ℕ → List ℕ → Bool
increased_from zero i can cur = false
increased_from (suc rounds) i can cur =
    let rest = increased_from rounds (i + 1) can cur in
    if ltb (get_or cur i 0) (get_or can i 0)
    then true
    else if ltb (get_or can i 0) (get_or cur i 0)
    then false
    else rest

-- The switch over the level, on padded parts.
level_allows : Text → List ℕ → List ℕ → Bool
unfolding increased_from
level_allows level cur can =
    if level === text "patch"
    then get_or can 0 0 == get_or cur 0 0
      && get_or can 1 0 == get_or cur 1 0
      && ltb (get_or cur 2 0) (get_or can 2 0)
    else if level === text "minor"
    then if not (get_or can 0 0 == get_or cur 0 0)
      then false
      else if ltb (get_or cur 1 0) (get_or can 1 0)
      then true
      else get_or can 1 0 == get_or cur 1 0 && ltb (get_or cur 2 0) (get_or can 2 0)
    else increased_from 3 0 can cur

unfoldable pub semver_matches_level : Text → Text → Text → Bool
unfolding pad level_allows
semver_matches_level current candidate level =
    let cur = extract_version_parts current in
    let can = extract_version_parts candidate in
    if is_empty cur || is_empty can
    then not (candidate === current)
    else level_allows level (pad cur) (pad can)

-- `imageRef.startsWith(prefix)`
unfoldable pub starts_with : Text → Text → Bool
starts_with [] s = true
starts_with (c ∷ p) [] = false
starts_with (c ∷ p) (d ∷ s) = c == d && starts_with p s

unfoldable pub is_digest_only : Text → Bool
unfolding starts_with
is_digest_only image_ref = starts_with (text "sha256:") image_ref

-- `s.split(c)[0]`: what stands before the first `c`.
unfoldable pub before_first : ℕ → Text → Text
before_first c [] = []
before_first c (d ∷ s) = if d == c then [] else d ∷ before_first c s

-- `s.lastIndexOf(c)`, plus one.
unfoldable pub last_index_of : ℕ → Text → ℕ
last_index_of c [] = 0
last_index_of c (d ∷ s) =
    let later = last_index_of c s in if ltb 0 later then later + 1 else if d == c then 1 else 0

-- A tag that is empty is none.
non_empty : Text → Option Text
non_empty tag = if is_empty tag then none else some tag

-- The tag that a reference without its digest writes.
explicit_tag_of : Text → Option Text
unfolding last_index_of non_empty
explicit_tag_of without_digest =
    let last_slash = last_index_of b'/' without_digest in
    let colon = last_index_of b':' without_digest in
    if colon == 0 || ltb colon last_slash then none else non_empty (drop colon without_digest)

unfoldable pub extract_explicit_tag : Text → Option Text
unfolding is_digest_only before_first explicit_tag_of
extract_explicit_tag image_ref =
    if is_empty image_ref || is_digest_only image_ref
    then none
    else explicit_tag_of (before_first b'@' image_ref)

unfoldable pub extract_tag : Text → Text
unfolding extract_explicit_tag is_digest_only
extract_tag image_ref =
    if is_empty image_ref || is_digest_only image_ref
    then []
    else or_else (extract_explicit_tag image_ref) (text "latest")

-- The repository of a reference without its digest.
repository_of : Text → Text
unfolding last_index_of
repository_of without_digest =
    let last_slash = last_index_of b'/' without_digest in
    let colon = last_index_of b':' without_digest in
    if ltb last_slash colon then take (colon - 1) without_digest else without_digest

unfoldable pub extract_repository : Text → Text
unfolding is_digest_only before_first repository_of
extract_repository image_ref =
    if is_empty image_ref || is_digest_only image_ref
    then []
    else repository_of (before_first b'@' image_ref)
