-- ===== src/SessionBatcher/Dedup.antt =====
-- Which containers a notification names (controller/src/notifications/session-batcher.ts,
-- pruneNotified and the filter of dispatchCheckResults).
use watchwarden.Base.{
  ℕ, zero, suc, ◌+◌, ◌-◌, ◌≤◌, ◌≡◌, refl, true, not, Option, none, some, List, [], ◌∷◌, ◌++◌, arith,
  Text, ===_iff, All, All-keep_test, All-mono, keep, length, drop, length-drop, take,
  take-append-drop, sym, leb, Bool-cases, Option-cases, inl, inr, is_some, ◌⊎◌, ◌∙◌,
}
use mathlib.Core.Path.{subst}
use watchwarden.JsMap
use watchwarden.JsMap.{Map, get-set}
use watchwarden.SessionBatcher.{
  Container, is_stale, prune_notified, dedup, dedup_key, max_dedup_entries,
}

module _ {ℓ κ} {A : Type ℓ} (P : A → Type κ) where
  All-drop : (n : ℕ) (xs : List A) → All P xs → All P (drop n xs)
  All-drop zero xs h = h
  All-drop (suc n) [] h = tt
  All-drop (suc n) (x ∷ xs) (p, h) = All-drop n xs h

not_stale : (now : ℕ) (e : Text × ℕ) → not (is_stale now e) ≡ true → now ≤ e.1 + 86400000
unfolding is_stale
not_stale now (key, ts) h = ground arith

drop_all_or_full {ℓ} :
    {A : Type ℓ} (cap : ℕ) (xs : List A)
    → (take (length xs - cap) xs ≡ []) ⊎ (length (drop (length xs - cap) xs) ≡ cap)
drop_all_or_full cap xs = elim (Bool-cases (leb (length xs) cap)) [
  | inl small ↦ let none_over : length xs - cap ≡ 0 = ground arith in inl (rw none_over)
  | inr large ↦ inr (ground (arith, length-drop (length xs - cap) xs))
]

-- After pruning, at most 10000 entries are left, none is older than 24 hours, and the newest of
-- those that are not older stay, in their order.
pub prune_notified_lem :
    (now : ℕ) (m : Map ℕ)
    → (length (prune_notified now m) ≤ 10000)
      × All (λ e. now ≤ e.1 + 86400000) (prune_notified now m)
      × ((older : Map ℕ) × (keep (λ e. not (is_stale now e)) m ≡ older ++ prune_notified now m)
          × ((older ≡ []) ⊎ (length (prune_notified now m) ≡ 10000)))
unfolding prune_notified is_stale
prune_notified_lem now m =
    let kept = keep (λ e. not (is_stale now e)) m in
    let excess = length kept - max_dedup_entries in
    (
      omega (arith, length-drop excess kept),
      All-drop (λ e. now ≤ e.1 + 86400000) excess kept
          (All-mono _ _ kept (not_stale now) (All-keep_test (λ e. not (is_stale now e)) m)),
      (
        take excess kept,
        sym (take-append-drop excess kept),
        drop_all_or_full max_dedup_entries kept,
      ),
    )

-- The key of the container is not remembered.
abbrev pub IsFresh : Text → Map ℕ → Container → Type 0
IsFresh agent seen c = JsMap.get (dedup_key agent c.name) seen ≡ none

unset :
    (now : ℕ) (c : Container) (agent : Text) (seen : Map ℕ) (d : Container)
    → IsFresh agent (JsMap.set (dedup_key agent c.name) now seen) d
    → IsFresh agent seen d
unset now c agent seen d h =
    ground (arith, get-set (dedup_key agent c.name) (dedup_key agent d.name) now seen)

pub get-set_self : (k : Text) (v : ℕ) (m : Map ℕ) → JsMap.get k (JsMap.set k v m) ≡ some v
get-set_self k v m = ground (arith, get-set k k v m, ===_iff k k)

dedup-IsFresh :
    (agent : Text) (now : ℕ) (cs : List Container) (seen : Map ℕ)
    → All (IsFresh agent seen) (dedup agent now cs seen).0
unfolding dedup
dedup-IsFresh agent now [] seen = tt
dedup-IsFresh agent now (c ∷ cs) seen =
    elim (Option-cases (JsMap.get (dedup_key agent c.name) seen)) [
      | inl new ↦
          rw (new, dedup)
            (
              new,
              All-mono _ _ _ (unset now c agent seen)
                  (dedup-IsFresh agent now cs (JsMap.set (dedup_key agent c.name) now seen)),
            )
      | inr (ts, old) ↦ rw (old, dedup) (dedup-IsFresh agent now cs seen)
    ]

dedup_kept :
    (agent : Text) (now : ℕ) (cs : List Container) (seen : Map ℕ) (k : Text) (ts : ℕ)
    → JsMap.get k seen ≡ some ts
    → JsMap.get k (dedup agent now cs seen).1 ≡ some ts
unfolding dedup
dedup_kept agent now [] seen k ts h = h
dedup_kept agent now (c ∷ cs) seen k ts h = ground (
  arith,
  dedup_kept agent now cs seen k ts h,
  get-set (dedup_key agent c.name) k now seen,
  ===_iff (dedup_key agent c.name) k,
  dedup_kept agent now cs (JsMap.set (dedup_key agent c.name) now seen) k ts,
)

-- What is reported a second time passes no more.
pub dedup_again :
    (agent : Text) (now later : ℕ) (cs : List Container) (seen : Map ℕ)
    → All (λ c. is_some (JsMap.get (dedup_key agent c.name) seen) ≡ true) cs
    → (dedup agent later cs seen).0 ≡ []
unfolding dedup
dedup_again agent now later [] seen h = refl
dedup_again agent now later (c ∷ cs) seen (p, h) =
    ground (arith, dedup_again agent now later cs seen h)

-- One container of the filter: it passes and is remembered, or is skipped.
module _ (agent : Text) (now : ℕ) (c : Container) (cs : List Container) (seen : Map ℕ) where
  dedup_new :
      JsMap.get (dedup_key agent c.name) seen ≡ none
      → let rest = dedup agent now cs (JsMap.set (dedup_key agent c.name) now seen) in
        dedup agent now (c ∷ cs) seen ≡ (c ∷ rest.0, rest.1)
  unfolding dedup
  dedup_new e = rw (e, dedup)

  pub dedup_old :
      {ts : ℕ}
      → JsMap.get (dedup_key agent c.name) seen ≡ some ts
      → dedup agent now (c ∷ cs) seen ≡ dedup agent now cs seen
  unfolding dedup
  dedup_old e = rw (e, dedup)

abbrev pub IsRemembered : Text → Map ℕ → Container → Type 0
IsRemembered agent seen c = is_some (JsMap.get (dedup_key agent c.name) seen) ≡ true

some_of_kept : (o : Option ℕ) (ts : ℕ) → o ≡ some ts → is_some o ≡ true
some_of_kept o ts e = rw e

dedup-IsRemembered :
    (agent : Text) (now : ℕ) (cs : List Container) (seen : Map ℕ)
    → All (IsRemembered agent (dedup agent now cs seen).1) cs
dedup-IsRemembered agent now [] seen = tt
dedup-IsRemembered agent now (c ∷ cs) seen =
    let k = dedup_key agent c.name in
    let after = dedup agent now cs (JsMap.set k now seen) in
    elim (Option-cases (JsMap.get k seen)) [
      | inl new ↦
          subst (λ r. All (IsRemembered agent r.1) (c ∷ cs))
            (sym (dedup_new agent now c cs seen new))
            (
              some_of_kept _ now
                  (dedup_kept agent now cs (JsMap.set k now seen) k now (get-set_self k now seen)),
              dedup-IsRemembered agent now cs (JsMap.set k now seen),
            )
      | inr (ts, old) ↦
          subst (λ r. All (IsRemembered agent r.1) (c ∷ cs))
            (sym (dedup_old agent now c cs seen old))
            (
              some_of_kept _ ts (dedup_kept agent now cs seen k ts old),
              dedup-IsRemembered agent now cs seen,
            )
    ]

kept_or_new :
    (agent : Text) (now : ℕ) (cs : List Container) (seen : Map ℕ) (k : Text)
    → (JsMap.get k seen ≡ none) ⊎ (JsMap.get k (dedup agent now cs seen).1 ≡ JsMap.get k seen)
kept_or_new agent now cs seen k = elim (Option-cases (JsMap.get k seen)) [
  | inl new ↦ inl new
  | inr (ts, old) ↦ inr (dedup_kept agent now cs seen k ts old ∙ sym old)
]

-- The containers that pass the filter had no remembered key; afterwards the key of every reported
-- container is remembered, so that none of them passes a second time; and the times of the keys
-- that were remembered before stay.
pub dedup_lem :
    (agent : Text) (now later : ℕ) (cs : List Container) (seen : Map ℕ) (k : Text)
    → let (fresh, seen') = dedup agent now cs seen in
      All (IsFresh agent seen) fresh
      × All (IsRemembered agent seen') cs
      × ((dedup agent later cs seen').0 ≡ [])
      × ((JsMap.get k seen ≡ none) ⊎ (JsMap.get k seen' ≡ JsMap.get k seen))
dedup_lem agent now later cs seen k = (
  dedup-IsFresh agent now cs seen,
  dedup-IsRemembered agent now cs seen,
  dedup_again agent now later cs (dedup agent now cs seen).1 (dedup-IsRemembered agent now cs seen),
  kept_or_new agent now cs seen k,
)
