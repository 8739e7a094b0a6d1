-- ===== src/Notifier/Templates.antt =====
-- Templates and links (controller/src/notifications/template-helpers.ts). A set of variables is a map;
-- `\w` is an ASCII letter, a digit or "_".
use watchwarden.Base.{
  ℕ, ◌+◌, ◌-◌, Bool, not, ◌&&◌, ◌||◌, some, [], ◌∷◌, ◌++◌, Text, text, text_or, ltb, ◌==◌,
  if◌then◌else◌, take, drop,
}
use watchwarden.Semver.{last_index_of, before_first}
use watchwarden.RegistryClient.Reference.{includes, after_first}

-- `s.indexOf(c)`, plus one.
unfoldable pub index_of : ℕ → Text → ℕ
index_of c [] = 0
index_of c (d ∷ s) =
    let later = index_of c s in if d == c then 1 else if ltb 0 later then later + 1 else 0

-- The digest goes if something stands before it.
unfoldable pub strip_digest : Text → Text
unfolding index_of
strip_digest image =
    if ltb 1 (index_of b'@' image) then take (index_of b'@' image - 1) image else image

-- Whether the last colon begins a tag.
unfoldable pub has_tag : Text → Bool
unfolding last_index_of includes
has_tag remainder =
    let colon = last_index_of b':' remainder in
    ltb 1 colon && not (includes b'/' (drop (colon - 1) remainder))

unfoldable pub tag_of : Text → Text
unfolding has_tag last_index_of
tag_of remainder =
    if has_tag remainder then drop (last_index_of b':' remainder) remainder else text "latest"

unfoldable pub untagged : Text → Text
unfolding has_tag last_index_of
untagged remainder =
    if has_tag remainder then take (last_index_of b':' remainder - 1) remainder else remainder

-- The registry is what stands before the first slash, if it has a dot or a colon.
unfoldable pub has_registry : Text → Bool
unfolding index_of includes before_first
has_registry remainder =
    ltb 1 (index_of b'/' remainder)
    && (includes b'.' (before_first b'/' remainder) || includes b':' (before_first b'/' remainder))

unfoldable pub with_library : Text → Text
unfolding includes
with_library remainder = if includes b'/' remainder then remainder else text "library/" ++ remainder

pub record Components : Type 0 where
  pub registry : Text
  pub repository : Text
  pub tag : Text
  pub owner : Text
  pub name : Text
  pub image : Text

unfoldable pub components_of : Text → (registry remainder tag : Text) → Components
unfolding with_library before_first after_first
components_of image registry remainder tag =
    let repository = with_library remainder in
    let owner = before_first b'/' repository in
    record {
      registry = registry;
      repository = repository;
      tag = tag;
      owner = owner;
      name = text_or (some (after_first b'/' repository)) owner;
      image = image;
    }

unfoldable pub parse_image_components : Text → Components
unfolding strip_digest tag_of untagged has_registry components_of before_first after_first
parse_image_components image =
    let remainder = strip_digest image in
    let rest = untagged remainder in
    if has_registry rest
    then components_of image (before_first b'/' rest) (after_first b'/' rest) (tag_of remainder)
    else components_of image (text "docker.io") rest (tag_of remainder)
