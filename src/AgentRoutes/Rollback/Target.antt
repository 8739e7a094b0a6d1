-- ===== src/AgentRoutes/Rollback/Target.antt =====
-- A rollback stays in the container's repository (controller/src/api/routes/agents.ts).
use watchwarden.Base.{
  ◌≡◌, refl, ap, ◌∙◌, true, false, some, [], ◌∷◌, ◌++◌, arith, Text, text, is_empty, is_truthy,
  text_or, take, zero, suc, ℕ, if_cases, ◌||◌, true_is_not_false,
}
use watchwarden.Semver.{
  starts_with, extract_repository, extract_explicit_tag, before_first, last_index_of,
  is_digest_only,
}
use watchwarden.Semver.References.{Free, extract-round_trip}
use watchwarden.AgentRoutes.Data.{Container}
use watchwarden.AgentRoutes.Rollback.{
  Request, target_image, base_image, rollback_digest, after_at, has_at,
}

before_first-at : (s t : Text) → has_at s ≡ false → before_first b'@' (s ++ b'@' ∷ t) ≡ s
unfolding before_first has_at
before_first-at [] t h = refl
before_first-at (c ∷ s) t h = ground (arith, before_first-at s t)

after_at-at : (s t : Text) → has_at s ≡ false → after_at (s ++ b'@' ∷ t) ≡ t
unfolding after_at has_at
after_at-at [] t h = refl
after_at-at (c ∷ s) t h = ground (arith, after_at-at s t)

has_at-before_first : (s : Text) → has_at (before_first b'@' s) ≡ false
unfolding before_first has_at
has_at-before_first [] = refl
has_at-before_first (c ∷ s) = ground (arith, has_at-before_first s)

has_at-take : (n : ℕ) (s : Text) → has_at s ≡ false → has_at (take n s) ≡ false
unfolding has_at
has_at-take zero s h = refl
has_at-take (suc n) [] h = refl
has_at-take (suc n) (c ∷ s) h = ground (arith, has_at-take n s)

has_at-nil : has_at [] ≡ false
unfolding has_at
has_at-nil = refl

starts_with-at : (p s : Text) → has_at p ≡ false → starts_with p (s ++ b'@' ∷ []) ≡ starts_with p s
unfolding starts_with has_at
starts_with-at [] s h = refl
starts_with-at (c ∷ p) [] h = ground arith
starts_with-at (c ∷ p) (d ∷ s) h = ground (arith, starts_with-at p s)

digest_only-at : (s : Text) → is_digest_only (s ++ b'@' ∷ []) ≡ is_digest_only s
unfolding is_digest_only
digest_only-at s = starts_with-at (text "sha256:") s (unfold has_at in refl)

has_at-repository : (image : Text) → has_at (extract_repository image) ≡ false
unfolding extract_repository
has_at-repository image =
    let h = has_at-before_first image in
    if_cases (λ s. has_at s ≡ false) (is_empty image || is_digest_only image) {x = []} has_at-nil
      (if_cases (λ s. has_at s ≡ false) _ (has_at-take _ (before_first b'@' image) h) h)

Free-at : (s : Text) → has_at s ≡ false → Free b'@' s
unfolding has_at last_index_of
Free-at [] h = refl
Free-at (c ∷ s) h = ground (arith, Free-at s)

truthy : (s : Text) → is_empty s ≡ false → is_truthy (some s) ≡ true
truthy [] h = cc
truthy (c ∷ s) h = refl

text_or-some : (s t : Text) → is_empty s ≡ false → text_or (some s) t ≡ s
text_or-some [] t h = cc
text_or-some (c ∷ s) t h = refl

base_image-repository :
    (c : Container)
    → is_empty (extract_repository c.image) ≡ false
    → base_image c ≡ extract_repository c.image
unfolding base_image
base_image-repository c h = text_or-some (extract_repository c.image) c.image h

-- A rollback to a digest, with or without a tag: the image that the agent is told is the container's
-- repository, an "@" and the digest, without the reference that it may stand behind.
pub target_image-digest :
    (c : Container) (r : Request) (digest : Text)
    → is_empty (extract_repository c.image) ≡ false
    → r.target_digest ≡ some digest
    → is_empty digest ≡ false
    → (target : Text) × (target_image (some c) r ≡ some target)
      × (before_first b'@' target ≡ extract_repository c.image)
      × (after_at target ≡ rollback_digest digest)
unfolding target_image
target_image-digest c r digest named e some_digest =
    let repository = extract_repository c.image in
    let h = has_at-repository c.image in
    (
      repository ++ b'@' ∷ rollback_digest digest,
      rw (e, base_image-repository c named, truthy digest some_digest) refl,
      before_first-at repository (rollback_digest digest) h,
      after_at-at repository (rollback_digest digest) h,
    )

-- A rollback to a tag, by which the tag is read back from the image that the agent is told, and so is
-- the container's repository.
pub target_image-tag :
    (c : Container) (r : Request) (tag : Text)
    → is_empty (extract_repository c.image) ≡ false
    → is_truthy r.target_digest ≡ false
    → r.target_tag ≡ some tag
    → Free b'@' tag
    → Free b':' tag
    → Free b'/' tag
    → is_empty tag ≡ false
    → is_digest_only (extract_repository c.image ++ b':' ∷ tag) ≡ false
    → (target : Text) × (target_image (some c) r ≡ some target)
      × (extract_explicit_tag target ≡ some tag)
      × (extract_repository target ≡ extract_repository c.image)
unfolding target_image
target_image-tag c r tag named no_digest e at colon slash some_tag plain =
    let repository = extract_repository c.image in
    let (x, y, _, _) =
      extract-round_trip repository tag [] (Free-at repository (has_at-repository c.image)) at colon
        slash (λ n. true_is_not_false (ap is_empty n) some_tag) plain
        (digest_only-at (repository ++ b':' ∷ tag) ∙ plain) in
    (
      repository ++ b':' ∷ tag,
      rw (no_digest, e, base_image-repository c named, truthy tag some_tag) refl,
      x,
      y,
    )
