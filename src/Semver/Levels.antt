-- ===== src/Semver/Levels.antt =====
-- Update levels (controller/src/lib/semver.ts, semverMatchesLevel).
use watchwarden.Base.{
  ℕ, ◌<◌, ◌≡◌, ◌≢◌, ◌⊎◌, ◌↔◌, true, false, List, [], ◌∷◌, arith, Text, text, ◌===◌, get_or, refl,
}
use watchwarden.Semver.{
  extract_version_parts, pad, level_allows, increased_from, semver_matches_level,
}

-- The lexicographic order on the first three parts.
abbrev pub Older : List ℕ → List ℕ → Type 0
Older cur can =
    (get_or cur 0 0 < get_or can 0 0)
    ⊎ ((get_or cur 0 0 ≡ get_or can 0 0)
        × ((get_or cur 1 0 < get_or can 1 0)
            ⊎ ((get_or cur 1 0 ≡ get_or can 1 0) × (get_or cur 2 0 < get_or can 2 0))))

-- What each level asks of the first three parts.
abbrev pub Allows : Text → List ℕ → List ℕ → Type 0
Allows level cur can =
    Older cur can
    × ((level === text "minor") ≡ true → get_or can 0 0 ≡ get_or cur 0 0)
    × ((level === text "patch") ≡ true
        → (get_or can 0 0 ≡ get_or cur 0 0) × (get_or can 1 0 ≡ get_or cur 1 0))

level_allows_iff :
    (level : Text) (cur can : List ℕ) → (level_allows level cur can ≡ true) ↔ Allows level cur can
unfolding level_allows increased_from
level_allows_iff level cur can = ground arith

get_or-pad :
    (xs : List ℕ)
    → (get_or (pad xs) 0 0 ≡ get_or xs 0 0)
      × (get_or (pad xs) 1 0 ≡ get_or xs 1 0)
      × (get_or (pad xs) 2 0 ≡ get_or xs 2 0)
unfolding pad
get_or-pad [] = (refl, refl, refl)
get_or-pad (a ∷ []) = (refl, refl, refl)
get_or-pad (a ∷ b ∷ []) = (refl, refl, refl)
get_or-pad (a ∷ b ∷ c ∷ xs) = (refl, refl, refl)

-- Where both tags have version parts, a candidate is accepted exactly when its first three parts
-- are greater in lexicographic order, with the same first part at level "minor", and with the same
-- first two parts at level "patch"; parts that are missing count as 0.
pub semver_matches_level_iff :
    (current candidate level : Text)
    → extract_version_parts current ≢ []
    → extract_version_parts candidate ≢ []
    → (semver_matches_level current candidate level ≡ true)
      ↔ Allows level (extract_version_parts current) (extract_version_parts candidate)
unfolding semver_matches_level
semver_matches_level_iff current candidate level h k =
    let cur = extract_version_parts current in
    let can = extract_version_parts candidate in
    ground (arith, get_or-pad cur, get_or-pad can, level_allows_iff level (pad cur) (pad can))

level_allows_narrowing :
    (level : Text) (cur can : List ℕ)
    → (level === text "patch") ≡ false
    → (level === text "minor") ≡ false
    → (level_allows (text "patch") cur can ≡ true → level_allows (text "minor") cur can ≡ true)
      × (level_allows (text "minor") cur can ≡ true → level_allows level cur can ≡ true)
unfolding level_allows increased_from ◌===◌
level_allows_narrowing level cur can h k = unfold level_allows increased_from ◌===◌ in ground arith

-- A stricter level accepts no more: what "patch" accepts "minor" accepts, and what "minor" accepts
-- every level accepts that is neither of the two, also for tags without version parts.
pub semver_matches_level_narrowing :
    (current candidate level : Text)
    → (level === text "patch") ≡ false
    → (level === text "minor") ≡ false
    → (semver_matches_level current candidate (text "patch") ≡ true
        → semver_matches_level current candidate (text "minor") ≡ true)
      × (semver_matches_level current candidate (text "minor") ≡ true
          → semver_matches_level current candidate level ≡ true)
unfolding semver_matches_level
semver_matches_level_narrowing current candidate level h k =
    let cur = pad (extract_version_parts current) in
    let can = pad (extract_version_parts candidate) in
    ground (arith, level_allows_narrowing level cur can h k)

-- No two tags with version parts are updates of one another, whatever the two levels are; so a
-- sequence of accepted updates never goes back and forth.
pub semver_matches_level_asymmetric :
    (current candidate level level' : Text)
    → extract_version_parts current ≢ []
    → extract_version_parts candidate ≢ []
    → semver_matches_level current candidate level ≡ true
    → semver_matches_level candidate current level' ≡ false
semver_matches_level_asymmetric current candidate level level' h k e = ground (
  arith,
  semver_matches_level_iff current candidate level h k,
  semver_matches_level_iff candidate current level' k h,
)
