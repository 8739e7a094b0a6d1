-- ===== src/RegistryClient/Tags/Sorted.antt =====
-- Which tags are listed, and in which order (controller/src/lib/registry-client.ts, fetchV2Tags).
use watchwarden.Base.{
  ℕ, ◌≤◌, ◌≡◌, refl, sym, ap, ◌∙◌, Bool, true, false, not, ◌&&◌, ◌||◌, Option, List, [], ◌∷◌, ◌++◌,
  arith, Text, text, ◌===◌, ===_iff, if◌then◌else◌, if_split, keep, All, All-mono,
}
use watchwarden.JsMap
use watchwarden.JsMap.{member-unique_from}
use watchwarden.JsMap.Members.{are_distinct}
use watchwarden.RegistryClient.Tags.{
  is_noise, matches_search, is_version, filtered, goes_first, insert_name, sort_names,
}

le_trans : (a b c : ℕ) → a ≤ b → b ≤ c → a ≤ c
le_trans a b c h k = omega arith

member-append :
    (t : Text) (xs ys : List Text)
    → JsMap.member t (xs ++ ys) ≡ (JsMap.member t xs || JsMap.member t ys)
unfolding JsMap.member
member-append t [] ys = refl
member-append t (x ∷ xs) ys = ground (arith, member-append t xs ys)

distinct-append_one :
    (x : Text) (xs : List Text)
    → JsMap.member x xs ≡ false
    → are_distinct xs ≡ true
    → are_distinct (xs ++ x ∷ []) ≡ true
unfolding JsMap.member
distinct-append_one x [] h d = refl
distinct-append_one x (y ∷ xs) h d =
    ground (arith, distinct-append_one x xs, member-append y xs (x ∷ []), ===_iff x y, ===_iff y x)

distinct-unique_from :
    (seen xs : List Text)
    → are_distinct seen ≡ true
    → are_distinct (JsMap.unique_from seen xs) ≡ true
unfolding JsMap.unique_from JsMap.add
distinct-unique_from seen [] h = h
distinct-unique_from seen (x ∷ xs) h = distinct-unique_from (JsMap.add x seen) xs (
    if_split (λ l. are_distinct l ≡ true) (JsMap.member x seen) (λ _. h)
      (λ new. distinct-append_one x seen new h))

same_test : (p : Text → Bool) (x t : Text) (b : Bool) → p x ≡ b → x ≡ t → p t ≡ b
same_test p x t b h e = sym (ap p e) ∙ h

-- The step of `member-keep`, by the test of the first.
member-keep_cons :
    (p : Text → Bool) (t x : Text) (xs : List Text) (b : Bool)
    → p x ≡ b
    → JsMap.member t (keep p xs) ≡ (JsMap.member t xs && p t)
    → JsMap.member t (if b then x ∷ keep p xs else keep p xs)
      ≡ ((x === t || JsMap.member t xs) && p t)
unfolding JsMap.member
member-keep_cons p t x xs true h ih = ground (arith, ih, ===_iff x t, same_test p x t true h)
member-keep_cons p t x xs false h ih = ground (arith, ih, ===_iff x t, same_test p x t false h)

member-keep :
    (p : Text → Bool) (t : Text) (xs : List Text)
    → JsMap.member t (keep p xs) ≡ (JsMap.member t xs && p t)
unfolding JsMap.member
member-keep p t [] = refl
member-keep p t (x ∷ xs) = member-keep_cons p t x xs (p x) refl (member-keep p t xs)

distinct-keep :
    (p : Text → Bool) (xs : List Text) → are_distinct xs ≡ true → are_distinct (keep p xs) ≡ true
distinct-keep p [] h = refl
distinct-keep p (x ∷ xs) h = ground (arith, distinct-keep p xs, member-keep p x xs)

member-keeps :
    (p q : Text → Bool) (t : Text) (xs ys : List Text)
    → JsMap.member t (keep p (keep q (JsMap.unique_from [] (xs ++ ys))))
      ≡ ((JsMap.member t xs || JsMap.member t ys) && q t && p t)
unfolding JsMap.member
member-keeps p q t xs ys =
    let all = JsMap.unique_from [] (xs ++ ys) in
    member-keep p t (keep q all)
    ∙ ap (λ b. b && p t) (member-keep q t all)
    ∙ ap (λ b. (b && q t) && p t) (member-unique_from t [] (xs ++ ys) ∙ member-append t xs ys)

-- "latest", then the versions, then the others.
abbrev pub rank : Text → ℕ
rank t = if t === text "latest" then 0 else if is_version t then 1 else 2

abbrev pub IsRanked : List Text → Type 0
IsRanked [] = Unit
IsRanked (t ∷ ts) = All (λ u. rank t ≤ rank u) ts × IsRanked ts

module _ (numeric_ge text_ge : Text → Text → Bool) where
  goes_first-rank : (a b : Text) → goes_first numeric_ge text_ge a b ≡ true → rank a ≤ rank b
  unfolding goes_first
  goes_first-rank a b h = ground arith

  goes_behind-rank : (a b : Text) → goes_first numeric_ge text_ge a b ≡ false → rank b ≤ rank a
  unfolding goes_first
  goes_behind-rank a b h = ground arith

  insert-member :
      (a t : Text) (xs : List Text)
      → JsMap.member t (insert_name numeric_ge text_ge a xs) ≡ (a === t || JsMap.member t xs)
  unfolding insert_name JsMap.member
  insert-member a t [] = refl
  insert-member a t (x ∷ xs) = ground (arith, insert-member a t xs)

  sort-member :
      (t : Text) (xs : List Text)
      → JsMap.member t (sort_names numeric_ge text_ge xs) ≡ JsMap.member t xs
  unfolding sort_names JsMap.member
  sort-member t [] = refl
  sort-member t (x ∷ xs) =
      insert-member x t (sort_names numeric_ge text_ge xs)
      ∙ ap (λ b. x === t || b) (sort-member t xs)

  insert-distinct :
      (a : Text) (xs : List Text)
      → JsMap.member a xs ≡ false
      → are_distinct xs ≡ true
      → are_distinct (insert_name numeric_ge text_ge a xs) ≡ true
  unfolding insert_name JsMap.member
  insert-distinct a [] h d = refl
  insert-distinct a (x ∷ xs) h d =
      ground (arith, insert-distinct a xs, insert-member a x xs, ===_iff a x, ===_iff x a)

  sort-distinct :
      (xs : List Text)
      → are_distinct xs ≡ true
      → are_distinct (sort_names numeric_ge text_ge xs) ≡ true
  unfolding sort_names
  sort-distinct [] h = refl
  sort-distinct (x ∷ xs) h =
      insert-distinct x (sort_names numeric_ge text_ge xs) (ground (arith, sort-member x xs))
        (sort-distinct xs (ground arith))

  insert-All :
      (P : Text → Type 0) (a : Text) (xs : List Text)
      → P a
      → All P xs
      → All P (insert_name numeric_ge text_ge a xs)
  unfolding insert_name
  insert-All P a [] p h = (p, tt)
  insert-All P a (x ∷ xs) p (q, h) =
      if_split (All P) (goes_first numeric_ge text_ge a x) (λ _. (p, (q, h)))
        (λ _. (q, insert-All P a xs p h))

  insert-IsRanked :
      (a : Text) (xs : List Text) → IsRanked xs → IsRanked (insert_name numeric_ge text_ge a xs)
  unfolding insert_name
  insert-IsRanked a [] h = (tt, tt)
  insert-IsRanked a (x ∷ xs) (q, h) =
      if_split IsRanked (goes_first numeric_ge text_ge a x)
        (λ first. (
          (
            goes_first-rank a x first,
            All-mono _ _ xs (λ u k. le_trans _ _ _ (goes_first-rank a x first) k) q,
          ),
          (q, h),
        ))
        (λ behind. (
          insert-All (λ u. rank x ≤ rank u) a xs (goes_behind-rank a x behind) q,
          insert-IsRanked a xs h,
        ))

  sort-IsRanked : (xs : List Text) → IsRanked (sort_names numeric_ge text_ge xs)
  unfolding sort_names
  sort-IsRanked [] = tt
  sort-IsRanked (x ∷ xs) = insert-IsRanked x _ (sort-IsRanked xs)

  -- The names that are listed are those of the two answers that are no noise and match the search, each
  -- once: first "latest", then the versions, then the others.
  pub sorted_names_lem :
      (search : Option Text) (batch1 batch2 : List Text) (t : Text)
      → let names = sort_names numeric_ge text_ge (filtered search batch1 batch2) in
        (JsMap.member t names ≡ (
          (JsMap.member t batch1 || JsMap.member t batch2)
          && not (is_noise t)
          && matches_search search t))
        × (are_distinct names ≡ true)
        × IsRanked names
  unfolding filtered
  sorted_names_lem search batch1 batch2 t =
      let all = JsMap.unique_from [] (batch1 ++ batch2) in
      let clean = keep (λ t. not (is_noise t)) all in
      (
        sort-member t (keep (matches_search search) clean)
            ∙ member-keeps (matches_search search) (λ t. not (is_noise t)) t batch1 batch2,
        sort-distinct (keep (matches_search search) clean) (
            distinct-keep (matches_search search) clean (
              distinct-keep (λ t. not (is_noise t)) all
                (distinct-unique_from [] (batch1 ++ batch2) refl))),
        sort-IsRanked (keep (matches_search search) clean),
      )
