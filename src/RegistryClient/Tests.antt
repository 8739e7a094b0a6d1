-- ===== src/RegistryClient/Tests.antt =====
-- The theorems on the registry client at concrete inputs.
use watchwarden.Base.{
  ◌≡◌, refl, true, false, not, ◌&&◌, ◌||◌, none, some, List, [], ◌∷◌, arith, Text, text, ◌===◌,
}
use watchwarden.JsMap
use watchwarden.JsMap.Members.{are_distinct}
use watchwarden.Semver.{before_first, last_index_of}
use watchwarden.RegistryClient.Reference.{parse_image_ref, Credential}
use watchwarden.RegistryClient.Tags.{TagsResult, filtered, sort_names, is_noise, matches_search}
use watchwarden.RegistryClient.Tags.Sorted.{IsRanked, sorted_names_lem}
use watchwarden.RegistryClient.Cache.{Entry, answer, get_cached}
use watchwarden.RegistryClient.Fetch.{Options, fetched, cache_key, returns, fetch_registry_tags}
use watchwarden.RegistryClient.Fetch.Again.{fetch-again}

abbrev names : List Text
names = text "alpine" ∷ text "1.2" ∷ text "latest" ∷ text "sha-77f0" ∷ []

sorted_names_lem_example :
    let sorted =
      sort_names
        (λ a b. true)
        (λ a b. true)
        (filtered none names (text "latest" ∷ text "v2" ∷ [])) in
    (JsMap.member (text "v2") sorted ≡ (
      (JsMap.member (text "v2") names || JsMap.member (text "v2") (text "latest" ∷ text "v2" ∷ []))
      && not (is_noise (text "v2"))
      && matches_search none (text "v2")))
    × (are_distinct sorted ≡ true)
    × IsRanked sorted
sorted_names_lem_example =
    sorted_names_lem (λ a b. true) (λ a b. true) none names (text "latest" ∷ text "v2" ∷ [])
      (text "v2")

abbrev options : Options
options = record { pages_before = 0; limit = 20; search = none }

abbrev found : TagsResult
found = record { tags = []; page = 1; has_more = false; total = some 0 }

abbrev no_credentials : List Credential
no_credentials = []

same_repository : parse_image_ref (text "ghcr.io/a/b:2") ≡ parse_image_ref (text "ghcr.io/a/b:1")
unfolding parse_image_ref last_index_of before_first ◌===◌
same_repository = refl

no_keys : are_distinct (JsMap.keys {V = Entry} []) ≡ true
unfolding JsMap.keys
no_keys = refl

nothing_cached : answer 1000 (cache_key (parse_image_ref (text "ghcr.io/a/b:1")) options) [] ≡ none
unfolding get_cached JsMap.get
nothing_cached = refl

fetch-again_example :
    let call = fetch_registry_tags (λ p. some p) no_credentials (λ s o. fetched found) in
    let first = call 1000 1800 (text "ghcr.io/a/b:1") options [] in
    let again = call 9000 9100 (text "ghcr.io/a/b:2") options first.cache in
    (first.reply ≡ returns found) × (again.reply ≡ returns found) × (again.asked ≡ none)
fetch-again_example =
    fetch-again (λ p. some p) no_credentials (λ s o. fetched found) 1000 1800 9000 9100
      (text "ghcr.io/a/b:1") (text "ghcr.io/a/b:2") options [] found no_keys same_repository
      nothing_cached refl (omega arith) refl
