-- ===== src/Semver/Tests.antt =====
-- Tests of the version parts and image references, and the theorems at concrete inputs.
use watchwarden.Base.{◌≡◌, ◌≢◌, ◌↔◌, refl, true, false, [], ◌∷◌, ◌++◌, none, some, text, ◌===◌}
use watchwarden.Semver.{
  extract_version_parts, semver_matches_level, extract_explicit_tag, extract_tag,
  extract_repository, before_first, is_digest_only,
}
use watchwarden.Semver.Levels.{
  Allows, semver_matches_level_iff, semver_matches_level_narrowing, semver_matches_level_asymmetric,
}
use watchwarden.Semver.References.{Free, extract_explicit_tag_parts, extract-round_trip}

version_tests :
    (extract_version_parts (text "v1.25.3-alpine") ≡ 1 ∷ 25 ∷ 3 ∷ [])
    × (extract_version_parts (text "release-2_4rc1") ≡ 2 ∷ 4 ∷ [])
    × (extract_version_parts (text "latest") ≡ [])
unfolding extract_version_parts
version_tests = (refl, refl, refl)

level_tests :
    (semver_matches_level (text "1.2.3") (text "1.2.4") (text "patch") ≡ true)
    × (semver_matches_level (text "1.2.3") (text "1.3.0") (text "patch") ≡ false)
    × (semver_matches_level (text "1.2") (text "1.3") (text "minor") ≡ true)
    × (semver_matches_level (text "1.9.9") (text "2.0.0") (text "minor") ≡ false)
    × (semver_matches_level (text "1.9.9") (text "2.0.0") (text "all") ≡ true)
    × (semver_matches_level (text "latest") (text "stable") (text "patch") ≡ true)
unfolding semver_matches_level extract_version_parts ◌===◌
level_tests = (refl, refl, refl, refl, refl, refl)

reference_tests :
    (extract_tag (text "postgres:15.1") ≡ text "15.1")
    × (extract_tag (text "postgres") ≡ text "latest")
    × (extract_explicit_tag (text "localhost:5000/app") ≡ none)
    × (extract_explicit_tag (text "localhost:5000/app:v2") ≡ some (text "v2"))
    × (extract_repository (text "localhost:5000/app:v2") ≡ text "localhost:5000/app")
    × (extract_repository (text "portainer/agent@sha256:abc") ≡ text "portainer/agent")
    × (extract_repository (text "sha256:abc") ≡ [])
unfolding extract_tag extract_repository
reference_tests = (refl, refl, refl, refl, refl, refl, refl)

parts_ne : (extract_version_parts (text "1.2") ≢ []) × (extract_version_parts (text "1.2.1") ≢ [])
unfolding extract_version_parts
parts_ne = (λ e. cc, λ e. cc)

semver_matches_level_iff_example :
    (semver_matches_level (text "1.2") (text "1.2.1") (text "patch") ≡ true)
    ↔ Allows
        (text "patch")
        (extract_version_parts (text "1.2"))
        (extract_version_parts (text "1.2.1"))
semver_matches_level_iff_example =
    semver_matches_level_iff (text "1.2") (text "1.2.1") (text "patch") parts_ne.0 parts_ne.1

semver_matches_level_narrowing_example :
    (semver_matches_level (text "1.2") (text "1.2.1") (text "patch") ≡ true
      → semver_matches_level (text "1.2") (text "1.2.1") (text "minor") ≡ true)
    × (semver_matches_level (text "1.2") (text "1.2.1") (text "minor") ≡ true
        → semver_matches_level (text "1.2") (text "1.2.1") (text "major") ≡ true)
unfolding ◌===◌
semver_matches_level_narrowing_example =
    semver_matches_level_narrowing (text "1.2") (text "1.2.1") (text "major") refl refl

semver_matches_level_asymmetric_test :
    semver_matches_level (text "1.2.1") (text "1.2") (text "all") ≡ false
unfolding semver_matches_level extract_version_parts ◌===◌
semver_matches_level_asymmetric_test =
    semver_matches_level_asymmetric (text "1.2") (text "1.2.1") (text "patch") (text "all")
      parts_ne.0 parts_ne.1 refl

extract_explicit_tag_parts_test :
    (before_first b'@' (text "a:5/b:v2@d") ≡ extract_repository (text "a:5/b:v2@d") ++ text ":v2")
    × (text "v2" ≢ [])
    × Free b':' (text "v2")
    × Free b'/' (text "v2")
unfolding extract_explicit_tag
extract_explicit_tag_parts_test = extract_explicit_tag_parts (text "a:5/b:v2@d") (text "v2") refl

extract-round_trip_test :
    (extract_explicit_tag (text "a:5/b:v2") ≡ some (text "v2"))
    × (extract_repository (text "a:5/b:v2") ≡ text "a:5/b")
    × (extract_explicit_tag (text "a:5/b:v2@d") ≡ some (text "v2"))
    × (extract_repository (text "a:5/b:v2@d") ≡ text "a:5/b")
unfolding before_first is_digest_only extract_explicit_tag
extract-round_trip_test =
    extract-round_trip (text "a:5/b") (text "v2") (text "d") refl refl refl refl (λ e. cc) refl refl
