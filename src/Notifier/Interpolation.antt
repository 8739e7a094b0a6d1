-- ===== src/Notifier/Interpolation.antt =====
-- Placeholders and links (controller/src/notifications/template-helpers.ts: interpolateTemplate,
-- renderImageLink). The variables are the object's own properties. The scan runs on fuel, one more
-- than the characters of the template, each round of which takes at least one of them.
pub mod Parts
use watchwarden.Base.{
  ℕ, zero, suc, Bool, true, false, not, ◌&&◌, ◌||◌, Option, none, some, List, [], ◌∷◌, ◌++◌, Text,
  text, ◌===◌, leb, ◌==◌, if◌then◌else◌, or_else, is_empty, length,
}
use watchwarden.JsMap
use watchwarden.JsMap.{Map}
use watchwarden.Notifier.Templates.{Components, parse_image_components}

-- `\w`
unfoldable pub is_word : ℕ → Bool
is_word c =
    (leb b'a' c && leb c b'z')
    || (leb b'A' c && leb c b'Z')
    || (leb b'0' c && leb c b'9')
    || c == b'_'

-- `\w+` as far as it goes, and what follows.
unfoldable pub take_word : Text → Text × Text
unfolding is_word
take_word [] = ([], [])
take_word (c ∷ s) = let (w, rest) = take_word s in if is_word c then (c ∷ w, rest) else ([], c ∷ s)

-- `\}\}` behind a word.
unfoldable pub close_braces : Text → Text → Option (Text × Text)
close_braces w (c ∷ d ∷ rest) =
    if not (is_empty w) && (c == b'}' && d == b'}') then some (w, rest) else none
close_braces w _ = none

-- `\{\{(\w+)\}\}` at the beginning: the key, and what follows.
unfoldable pub match_at : Text → Option (Text × Text)
unfolding take_word close_braces
match_at (c ∷ d ∷ s) =
    let (w, rest) = take_word s in if c == b'{' && d == b'{' then close_braces w rest else none
match_at _ = none

unfoldable pub scan : ℕ → Map Text → Text → Text
unfolding match_at
scan zero vars s = []
scan (suc fuel) vars [] = []
scan (suc fuel) vars (c ∷ s) = elim (match_at (c ∷ s)) [
  | some (key, rest) ↦ or_else (JsMap.get key vars) [] ++ scan fuel vars rest
  | none ↦ c ∷ scan fuel vars s
]

unfoldable pub interpolate_template : Text → Map Text → Text
unfolding scan
interpolate_template template vars = scan (suc (length template)) vars template

unfoldable pub variables : Components → Map Text
variables c =
    (text "registry", c.registry)
    ∷ (text "repository", c.repository)
    ∷ (text "tag", c.tag)
    ∷ (text "owner", c.owner)
    ∷ (text "name", c.name)
    ∷ (text "image", c.image)
    ∷ []

abbrev pub built_in_link_templates : Map Text
built_in_link_templates =
    (text "docker.io", text "https://hub.docker.com/r/{{repository}}/tags?name={{tag}}")
    ∷ (text "ghcr.io", text "https://github.com/{{owner}}/{{name}}/pkgs/container/{{name}}")
    ∷ (text "quay.io", text "https://quay.io/repository/{{repository}}?tab=tags")
    ∷ []

unfoldable pub render_image_link : Text → Option Text → Text
unfolding interpolate_template variables
render_image_link image none = []
render_image_link image (some link_template) =
    let components = parse_image_components image in
    if is_empty link_template
    then []
    else if link_template === text "auto"
    then elim (JsMap.get components.registry built_in_link_templates) [
      | none ↦ []
      | some builtin ↦ interpolate_template builtin (variables components)
    ]
    else interpolate_template link_template (variables components)
