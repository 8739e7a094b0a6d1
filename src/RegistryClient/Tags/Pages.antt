-- ===== src/RegistryClient/Tags/Pages.antt =====
-- The pages of a list of tags (controller/src/lib/registry-client.ts, fetchV2Tags).
use mathlib.Core.List.{map-append}
use watchwarden.Base.{
  none, ℕ, zero, suc, ◌+◌, ◌*◌, ◌≤◌, ◌<◌, ◌≡◌, refl, sym, ap, ◌∙◌, Bool, true, false, not, Option,
  List, [], ◌∷◌, ◌++◌, map, arith, Text, ltb, is_empty, length, take, drop, length-drop,
  take-append-drop,
}
use watchwarden.RegistryClient.Tags.{
  RegistryTag, resolve_from, resolve_digests, page_of, fetch_v2_tags, sort_names, filtered,
}

take-nil {ℓ} : {A : Type ℓ} (n : ℕ) → take {A = A} n [] ≡ []
take-nil zero = refl
take-nil (suc n) = refl

take-add {ℓ} :
    {A : Type ℓ} (a b : ℕ) (xs : List A) → take (a + b) xs ≡ take a xs ++ take b (drop a xs)
take-add zero b xs = let e : 0 + b ≡ b = omega arith in rw e refl
take-add (suc a) b [] = let e : suc a + b ≡ suc (a + b) = omega arith in rw e (sym (take-nil b))
take-add (suc a) b (x ∷ xs) =
    let e : suc a + b ≡ suc (a + b) = omega arith in rw e (ap (λ l. x ∷ l) (take-add a b xs))

not-not : (b : Bool) → not (not b) ≡ b
not-not true = refl
not-not false = refl

is_empty-drop {ℓ} :
    {A : Type ℓ} (n : ℕ) (xs : List A) → is_empty (drop n xs) ≡ not (ltb n (length xs))
is_empty-drop zero [] = refl
is_empty-drop zero (x ∷ xs) = ground arith
is_empty-drop (suc n) [] = ground arith
is_empty-drop (suc n) (x ∷ xs) = ground (arith, is_empty-drop n xs)

is_empty-map-take {ℓ κ} :
    {A : Type ℓ} {B : Type κ} (f : A → B) (n : ℕ) (xs : List A)
    → 0 < n
    → is_empty (map f (take n xs)) ≡ is_empty xs
is_empty-map-take f zero xs h = absurd (omega arith)
is_empty-map-take f (suc n) [] h = refl
is_empty-map-take f (suc n) (x ∷ xs) h = refl

module _ (digest_of : Text → Option Text) where
  abbrev pub named_tag : Text → RegistryTag
  named_tag n = record { name = n; digest = digest_of n; updated_at = none }

  resolve_from-nil : (fuel : ℕ) → resolve_from digest_of fuel [] ≡ []
  unfolding resolve_from
  resolve_from-nil zero = refl
  resolve_from-nil (suc fuel) = resolve_from-nil fuel

  resolve_from-map :
      (fuel : ℕ) (names : List Text)
      → length names ≤ fuel
      → resolve_from digest_of fuel names ≡ map named_tag names
  unfolding resolve_from
  resolve_from-map fuel [] h = resolve_from-nil fuel
  resolve_from-map zero (n ∷ names) h = absurd (omega arith)
  resolve_from-map (suc fuel) (n ∷ names) h =
      ap (λ l. named_tag n ∷ l)
        (ap (λ l. map named_tag (take 9 names) ++ l)
            (resolve_from-map fuel (drop 9 names) (omega (arith, length-drop 9 names)))
          ∙ sym (map-append named_tag (take 9 names) (drop 9 names))
          ∙ ap (map named_tag) (take-append-drop 9 names))

  page-tags :
      (p limit : ℕ) (names : List Text)
      → (page_of digest_of p limit names).tags ≡ map named_tag (take limit (drop (p * limit) names))
  unfolding page_of resolve_digests
  page-tags p limit names =
      resolve_from-map (length (take limit (drop (p * limit) names))) _ (omega arith)

  -- The tags of the first pages.
  abbrev pub pages : ℕ → ℕ → List Text → List RegistryTag
  pages zero limit names = []
  pages (suc n) limit names = pages n limit names ++ (page_of digest_of n limit names).tags

  pages-take :
      (n limit : ℕ) (names : List Text)
      → pages n limit names ≡ map named_tag (take (n * limit) names)
  pages-take zero limit names = let e : 0 * limit ≡ 0 = omega arith in rw e refl
  pages-take (suc n) limit names =
      let e : suc n * limit ≡ n * limit + limit = omega arith in
      rw
        (
          e,
          take-add (n * limit) limit names,
          map-append named_tag (take (n * limit) names) (take limit (drop (n * limit) names)),
        )
        (ap (λ l. l ++ (page_of digest_of n limit names).tags) (pages-take n limit names)
          ∙ ap (λ l. map named_tag (take (n * limit) names) ++ l) (page-tags n limit names))

  has_more_lem :
      (p limit : ℕ) (names : List Text)
      → 0 < limit
      → (page_of digest_of p limit names).has_more
        ≡ not (is_empty (page_of digest_of (suc p) limit names).tags)
  has_more_lem p limit names h =
      let e : suc p * limit ≡ p * limit + limit = omega arith in
      rw
        (
          page-tags (suc p) limit names,
          is_empty-map-take named_tag limit (drop (suc p * limit) names) h,
          is_empty-drop (suc p * limit) names,
          e,
        )
        (unfold page_of in sym (not-not (ltb (p * limit + limit) (length names))))

-- The pages of a list of tags, put one behind the other, are the sorted names that are left of what
-- the registry answers, from the first one on, each with its digest; and there is more behind a page
-- just when the next page is not empty.
pub fetch_v2_tags-pages :
    (numeric_ge text_ge : Text → Text → Bool) (digest_of : Text → Option Text) (n limit : ℕ)
    (search : Option Text) (batch1 batch2 : List Text)
    → 0 < limit
    → let names = sort_names numeric_ge text_ge (filtered search batch1 batch2) in
      (pages digest_of n limit names ≡ map (named_tag digest_of) (take (n * limit) names))
      × ((fetch_v2_tags numeric_ge text_ge digest_of n limit search batch1 batch2).has_more
          ≡ not (
              is_empty
                (fetch_v2_tags numeric_ge text_ge digest_of
                  (suc n)
                  limit
                  search
                  batch1
                  batch2).tags))
unfolding fetch_v2_tags
fetch_v2_tags-pages numeric_ge text_ge digest_of n limit search batch1 batch2 h =
    let names = sort_names numeric_ge text_ge (filtered search batch1 batch2) in
    (pages-take digest_of n limit names, has_more_lem digest_of n limit names h)
