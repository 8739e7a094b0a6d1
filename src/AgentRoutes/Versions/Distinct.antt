-- ===== src/AgentRoutes/Versions/Distinct.antt =====
-- Each version is listed once (controller/src/api/routes/agents.ts).
use watchwarden.Base.{
  ℕ, suc, ◌≤◌, ◌≡◌, refl, Bool, true, false, Option, none, some, List, [], ◌∷◌, map, arith, Text,
  ◌===◌, ===_iff, ===_refl, or_else, is_empty, keep, find, length, All, if_cases, Bool-cases, inl,
  inr,
}
use watchwarden.JsMap
use watchwarden.JsMap.{member-add}
use watchwarden.JsMap.Members.{are_distinct}
use watchwarden.Hub.UpdateResult.{Status}
use watchwarden.AgentRoutes.Data.{Container}
use watchwarden.AgentRoutes.Versions.{
  Entry, Version, version_of, sides, digest_of, unseen, local_versions, is_relevant, bare_digest,
  equals_optional, current_digest_of,
}

-- What was seen is not listed.
unseen-not_seen :
    (seen : List Text) (vs : List Version) (d : Text)
    → JsMap.member d seen ≡ true
    → JsMap.member d (map digest_of (unseen seen vs)) ≡ false
unfolding unseen JsMap.member
unseen-not_seen seen [] d h = refl
unseen-not_seen seen (v ∷ vs) d h = ground (
  arith,
  unseen-not_seen seen vs d,
  unseen-not_seen (JsMap.add (digest_of v) seen) vs d,
  member-add (digest_of v) d seen,
  ===_iff (digest_of v) d,
)

unseen-distinct :
    (seen : List Text) (vs : List Version) → are_distinct (map digest_of (unseen seen vs)) ≡ true
unfolding unseen
unseen-distinct seen [] = refl
unseen-distinct seen (v ∷ vs) = ground (
  arith,
  unseen-distinct seen vs,
  unseen-distinct (JsMap.add (digest_of v) seen) vs,
  unseen-not_seen (JsMap.add (digest_of v) seen) vs (digest_of v),
  member-add (digest_of v) (digest_of v) seen,
  ===_refl (digest_of v),
)

abbrev pub has_digest : Text → Version → Bool
has_digest d v = digest_of v === d

-- The first version with a digest that was not seen.
unseen-find :
    (seen : List Text) (vs : List Version) (d : Text)
    → is_empty d ≡ false
    → JsMap.member d seen ≡ false
    → find (has_digest d) (unseen seen vs) ≡ find (has_digest d) vs
unfolding unseen
unseen-find seen [] d e h = refl
unseen-find seen (v ∷ vs) d e h = ground (
  arith,
  unseen-find seen vs d e,
  unseen-find (JsMap.add (digest_of v) seen) vs d e,
  member-add (digest_of v) d seen,
  ===_iff (digest_of v) d,
)

-- A version that is current has the container's digest.
abbrev CurrentHas : Text → Version → Type 0
CurrentHas d v = v.is_current ≡ true → digest_of v ≡ d

equals_optional-eq : (d : Text) (o : Option Text) → equals_optional d o ≡ true → d ≡ or_else o []
unfolding equals_optional
equals_optional-eq d none h = cc
equals_optional-eq d (some e) h = (===_iff d e).0 h

version_of-CurrentHas :
    (container : Option Container) (image raw : Option Text) (status : Option Status) (at : ℕ)
    → CurrentHas
        (or_else (bare_digest (current_digest_of container)) [])
        (version_of container image raw status at)
unfolding version_of digest_of
version_of-CurrentHas container image raw status at h = ground (
  arith,
  equals_optional-eq (digest_of (version_of container image raw status at))
      (bare_digest (current_digest_of container)),
)

sides-CurrentHas :
    (container : Option Container) (es : List Entry)
    → All (CurrentHas (or_else (bare_digest (current_digest_of container)) [])) (sides container es)
unfolding sides
sides-CurrentHas container [] = tt
sides-CurrentHas container (e ∷ es) = (
  version_of-CurrentHas container _ _ _ _,
  (version_of-CurrentHas container _ _ _ _, sides-CurrentHas container es),
)

unseen-All :
    (P : Version → Type 0) (seen : List Text) (vs : List Version)
    → All P vs
    → All P (unseen seen vs)
unfolding unseen
unseen-All P seen [] h = tt
unseen-All P seen (v ∷ vs) (p, h) =
    if_cases (All P) (is_empty (digest_of v)) (unseen-All P seen vs h) (
      if_cases (All P) (JsMap.member (digest_of v) seen) (unseen-All P seen vs h)
        (p, unseen-All P (JsMap.add (digest_of v) seen) vs h))

abbrev pub current : List Version → List Version
current = keep (λ v. v.is_current)

current-none :
    (d : Text) (vs : List Version)
    → JsMap.member d (map digest_of vs) ≡ false
    → All (CurrentHas d) vs
    → length (current vs) ≡ 0
unfolding JsMap.member
current-none d [] m h = refl
current-none d (v ∷ vs) m (p, h) = ground (arith, current-none d vs, ===_iff (digest_of v) d)

one_more : {n : ℕ} → n ≡ 0 → suc n ≤ 1
one_more e = omega arith

current-le_one :
    (d : Text) (vs : List Version)
    → are_distinct (map digest_of vs) ≡ true
    → All (CurrentHas d) vs
    → length (current vs) ≤ 1
current-le_one d [] m h = omega arith
current-le_one d (v ∷ vs) m (p, h) = elim (Bool-cases v.is_current) [
  | inl now ↦ rw now (one_more (current-none d vs (rw (← (p now)) (ground arith)) h))
  | inr other ↦ rw other (current-le_one d vs (ground arith) h)
]

-- The versions that are listed: no two have the same digest; each digest that a side of a relevant
-- entry has, except the empty one, is listed, with the first such side, the newest; and at most one
-- version is marked as the one that runs.
pub local_versions_lem :
    (agent_id container_id : Text) (container : Option Container) (history : List Entry)
    (digest : Text)
    → is_empty digest ≡ false
    → let vs = local_versions agent_id container_id container history in
      let all = sides container (keep (is_relevant agent_id container_id container) history) in
      (are_distinct (map digest_of vs) ≡ true)
      × (find (has_digest digest) vs ≡ find (has_digest digest) all)
      × (length (current vs) ≤ 1)
unfolding local_versions
local_versions_lem agent_id container_id container history digest e =
    let all = sides container (keep (is_relevant agent_id container_id container) history) in
    let distinct = unseen-distinct [] all in
    (
      distinct,
      unseen-find [] all digest e (unfold JsMap.member in refl),
      current-le_one _ (unseen [] all) distinct (
          unseen-All _ [] all (
            sides-CurrentHas container
              (keep (is_relevant agent_id container_id container) history))),
    )
