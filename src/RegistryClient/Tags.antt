-- ===== src/RegistryClient/Tags.antt =====
-- The list of a repository's tags (controller/src/lib/registry-client.ts: fetchV2Tags, resolveDigests). The
-- tags and digests that the registry answers are arguments, and so are the two orders of
-- `localeCompare`: `numeric_ge a b` where `b.localeCompare(a, undefined, { numeric: true })` is not
-- positive, and `text_ge a b` for `b.localeCompare(a)`. `sort` is stable; a page is given by the number
-- of pages before it.
pub mod Pages
pub mod Sorted
use watchwarden.Base.{
  ℕ, zero, suc, ◌+◌, ◌*◌, Bool, true, false, not, ◌&&◌, ◌||◌, Option, none, some, List, [], ◌∷◌,
  ◌++◌, map, Text, text, ◌===◌, ltb, leb, ◌==◌, if◌then◌else◌, or_else, is_empty, is_truthy, keep,
  any, length, take, drop,
}
use watchwarden.JsMap
use watchwarden.Semver.{starts_with}
use watchwarden.RegistryClient.Reference.{lower}

pub record RegistryTag : Type 0 where
  pub name : Text
  pub digest : Option Text
  pub updated_at : Option Text

pub record TagsResult : Type 0 where
  pub tags : List RegistryTag
  pub page : ℕ
  pub has_more : Bool
  pub total : Option ℕ

abbrev pub noise_prefixes : List Text
noise_prefixes =
    text "amd64-"
    ∷ text "arm64v8-"
    ∷ text "arm32v7-"
    ∷ text "arm64-"
    ∷ text "arm-"
    ∷ text "i386-"
    ∷ text "386-"
    ∷ text "version-"
    ∷ text "sha-"
    ∷ text "unstable-"
    ∷ text "develop-"
    ∷ []

-- `s.includes(part)`
unfoldable pub contains : Text → Text → Bool
contains part [] = is_empty part
contains part (c ∷ s) = starts_with part (c ∷ s) || contains part s

unfoldable pub is_digit : ℕ → Bool
is_digit c = leb b'0' c && leb c b'9'

unfoldable pub starts_with_digit : Text → Bool
unfolding is_digit
starts_with_digit [] = false
starts_with_digit (c ∷ s) = is_digit c

-- `/alpine\d/`
unfoldable pub contains_alpine : Text → Bool
unfolding starts_with_digit
contains_alpine [] = false
contains_alpine (c ∷ s) =
    (starts_with (text "alpine") (c ∷ s) && starts_with_digit (drop 6 (c ∷ s))) || contains_alpine s

-- Tags of platforms, of builds and the like.
unfoldable pub is_noise : Text → Bool
unfolding contains contains_alpine
is_noise t =
    let l = map lower t in
    any (λ p. starts_with p l) noise_prefixes
    || ((contains (text "ubuntu") l || contains (text "debian") l || contains_alpine l)
        && ltb 30 (length l))

unfoldable pub matches_search : Option Text → Text → Bool
unfolding contains
matches_search search t =
    if is_truthy search then contains (map lower (or_else search [])) (map lower t) else true

-- `/^v?\d/`
unfoldable pub is_version : Text → Bool
unfolding starts_with_digit
is_version [] = false
is_version (c ∷ s) = starts_with_digit (c ∷ s) || (c == b'v' && starts_with_digit s)

-- The names that are left, before they are sorted.
unfoldable pub filtered : Option Text → List Text → List Text → List Text
unfolding is_noise matches_search
filtered search batch1 batch2 =
    keep (matches_search search)
      (keep (λ t. not (is_noise t)) (JsMap.unique_from [] (batch1 ++ batch2)))

module _ (numeric_ge text_ge : Text → Text → Bool) where
  -- Whether the comparison of two names is not positive.
  unfoldable pub goes_first : Text → Text → Bool
  unfolding is_version
  goes_first a b =
      if a === text "latest"
      then true
      else if b === text "latest"
      then false
      else if is_version a && not (is_version b)
      then true
      else if not (is_version a) && is_version b
      then false
      else if is_version a
      then numeric_ge a b
      else text_ge a b

  unfoldable pub insert_name : Text → List Text → List Text
  unfolding goes_first
  insert_name a [] = a ∷ []
  insert_name a (b ∷ bs) = if goes_first a b then a ∷ b ∷ bs else b ∷ insert_name a bs

  unfoldable pub sort_names : List Text → List Text
  unfolding insert_name
  sort_names [] = []
  sort_names (a ∷ xs) = insert_name a (sort_names xs)

module _ (digest_of : Text → Option Text) where
  -- Ten at a time; the fuel is the number of names.
  unfoldable pub resolve_from : ℕ → List Text → List RegistryTag
  resolve_from zero names = []
  resolve_from (suc fuel) names =
      map (λ n. record { name = n; digest = digest_of n; updated_at = none }) (take 10 names)
      ++ resolve_from fuel (drop 10 names)

  unfoldable pub resolve_digests : List Text → List RegistryTag
  unfolding resolve_from
  resolve_digests names = resolve_from (length names) names

  -- A page of sorted names.
  unfoldable pub page_of : (pages_before limit : ℕ) → List Text → TagsResult
  unfolding resolve_digests
  page_of pages_before limit names =
      let start = pages_before * limit in
      record {
        tags = resolve_digests (take limit (drop start names));
        page = suc pages_before;
        has_more = ltb (start + limit) (length names);
        total = some (length names);
      }

-- The answer, for the first 500 tags and for the 500 behind the image's own tag.
unfoldable pub fetch_v2_tags :
    (numeric_ge text_ge : Text → Text → Bool)
    → (digest_of : Text → Option Text) → (pages_before limit : ℕ) → (search : Option Text)
    → (batch1 batch2 : List Text) → TagsResult
unfolding filtered sort_names page_of
fetch_v2_tags numeric_ge text_ge digest_of pages_before limit search batch1 batch2 =
    page_of digest_of pages_before limit
      (sort_names numeric_ge text_ge (filtered search batch1 batch2))
