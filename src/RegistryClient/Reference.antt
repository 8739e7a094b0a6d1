-- ===== src/RegistryClient/Reference.antt =====
-- References of images (controller/src/lib/registry-client.ts: extractTag, parseImageRef,
-- canUseDockerHub, getCredentials). The decryption of a password is a parameter; an error of the
-- database is the absence of credentials.
use watchwarden.Base.{
  ℕ, ◌+◌, ◌-◌, Bool, not, ◌||◌, ◌&&◌, Option, none, some, List, [], ◌∷◌, ◌++◌, map, Text, text,
  ◌===◌, ltb, leb, ◌==◌, if◌then◌else◌, any, take, drop,
}
use watchwarden.Semver.{before_first, last_index_of}

-- `s.includes(c)`, of one character.
unfoldable pub includes : ℕ → Text → Bool
includes c = any (λ d. d == c)

-- `s.split(c).slice(1).join(c)`: what stands behind the first `c`.
unfoldable pub after_first : ℕ → Text → Text
after_first c [] = []
after_first c (d ∷ s) = if d == c then s else after_first c s

-- The tag that a reference without its digest writes, if its last colon is behind the last slash.
unfoldable pub extract_tag : Text → Option Text
unfolding before_first last_index_of
extract_tag image =
    let ref = before_first b'@' image in
    let colon = last_index_of b':' ref in
    if ltb (last_index_of b'/' ref) colon then some (drop colon ref) else none

unfoldable pub without_tag : Text → Text
unfolding last_index_of
without_tag ref =
    let colon = last_index_of b':' ref in
    if ltb (last_index_of b'/' ref) colon then take (colon - 1) ref else ref

pub record ImageRef : Type 0 where
  pub registry : Text
  pub repository : Text

unfoldable pub is_registry : Text → Bool
unfolding includes
is_registry first = includes b'.' first || includes b':' first

unfoldable pub split_registry : Text → ImageRef
unfolding includes is_registry before_first after_first
split_registry ref =
    if not (includes b'/' ref)
    then record { registry = text "docker.io"; repository = text "library/" ++ ref }
    else if is_registry (before_first b'/' ref)
    then record { registry = before_first b'/' ref; repository = after_first b'/' ref }
    else record { registry = text "docker.io"; repository = ref }

unfoldable pub parse_image_ref : Text → ImageRef
unfolding before_first without_tag split_registry
parse_image_ref image = split_registry (without_tag (before_first b'@' image))

-- `toLowerCase` of an ASCII letter.
unfoldable pub lower : ℕ → ℕ
lower c = if leb b'A' c && leb c b'Z' then c + 32 else c

unfoldable pub can_use_docker_hub : Text → Bool
unfolding lower
can_use_docker_hub registry = map lower registry === text "lscr.io"

pub record Credential : Type 0 where
  pub registry : Text
  pub username : Text
  pub password_encrypted : Text

-- "docker.io" is "index.docker.io".
unfoldable pub normalized : Text → Text
normalized registry = if registry === text "docker.io" then text "index.docker.io" else registry

-- The first credentials of the registry; an error of the decryption is none at all.
unfoldable pub get_credentials :
    (decrypt : Text → Option Text) → Text → List Credential → Option (Text × Text)
unfolding normalized
get_credentials decrypt registry [] = none
get_credentials decrypt registry (c ∷ cs) =
    let rest = get_credentials decrypt registry cs in
    if normalized c.registry === normalized registry || c.registry === registry
    then elim (decrypt c.password_encrypted) [ none ↦ none | some p ↦ some (c.username, p) ]
    else rest
