-- ===== src/Hub/AutoUpdate/Eligible.antt =====
-- Which containers an automatic update takes (controller/src/ws/hub.ts, the filter of CHECK_RESULT).
use watchwarden.Base.{
  true_is_not_false, ℕ, zero, suc, Bool-cases, ◌+◌, ◌*◌, ◌≤◌, ◌≡◌, ◌↔◌, ◌⊎◌, inl, inr, refl, sym,
  ap, ◌∙◌, true, false, Option, none, some, [], ◌∷◌, arith, Text, text, ◌===◌, ===_iff, is_empty,
  or_else,
}
use watchwarden.Semver.{extract_tag, semver_matches_level}
use watchwarden.Hub.AutoUpdate.{
  Container, CheckResultItem, Config, passes, holds_back, old_enough, level_permits,
  effective_policy, is_stateful, first_seen, image_of, effective_level, first_of,
}

-- The policy of a container is its label's, else the one set in the interface.
abbrev HasPolicy : Container → Text → Type 0
HasPolicy c p = (c.label_policy ≡ some p) ⊎ ((c.label_policy ≡ none) × (c.policy ≡ some p))

-- There is no level, or a tag is unknown, or the candidate is an update at the level.
abbrev LevelPermits : Text → Text → Text → Type 0
LevelPermits level current candidate =
    (level ≡ [])
    ⊎ (level ≡ text "all")
    ⊎ (current ≡ [])
    ⊎ (candidate ≡ [])
    ⊎ (semver_matches_level current candidate level ≡ true)

-- What an automatic update of a container asks for, at level `level`.
pub record Permitted (now : ℕ) (config : Config) (r : CheckResultItem) (c : Container)
    : Type 0 where
  pub reported : r.has_update ≡ true
  pub not_manual : ¬ HasPolicy c (text "manual")
  pub not_notify : ¬ HasPolicy c (text "notify")
  pub stateless : c.is_stateful ≡ false
  pub aged :
      (config.policy.min_age_hours ≡ 0)
      ⊎ ((seen : ℕ) × (c.update_first_seen ≡ some seen)
          × (seen + config.policy.min_age_hours * 3600000 ≤ now))
  pub levelled :
      LevelPermits
        (effective_level (some c) config.global_update_level)
        (extract_tag c.image)
        (extract_tag (or_else r.latest_digest []))

passes_parts :
    (now : ℕ) (config : Config) (r : CheckResultItem) (c : Container)
    → passes now config r (some c) ≡ true
    → (r.has_update ≡ true)
      × (holds_back (first_of c.label_policy c.policy) ≡ false)
      × (c.is_stateful ≡ false)
      × (old_enough now config.policy.min_age_hours c.update_first_seen ≡ true)
      × (level_permits
            (effective_level (some c) config.global_update_level)
            (extract_tag c.image)
            (extract_tag (or_else r.latest_digest []))
          ≡ true)
unfolding passes effective_policy is_stateful first_seen image_of
passes_parts now config r c h = ground arith

empty_iff : (t : Text) → (is_empty t ≡ true) ↔ (t ≡ [])
empty_iff [] = ground arith
empty_iff (c ∷ t) = ground arith

not_held_back :
    (c : Container) (p : Text)
    → holds_back (first_of c.label_policy c.policy) ≡ false
    → holds_back (some p) ≡ true
    → ¬ HasPolicy c p
unfolding first_of
not_held_back c p h k m = elim m [
  | inl l ↦ true_is_not_false k (sym (ap (λ o. holds_back (first_of o c.policy)) l) ∙ h)
  | inr (n, q) ↦
      true_is_not_false k (sym (ap (λ o. holds_back (first_of o c.policy)) n ∙ ap holds_back q) ∙ h)
]

aged_of :
    (now hours : ℕ) (o : Option ℕ)
    → old_enough now hours o ≡ true
    → (hours ≡ 0) ⊎ ((seen : ℕ) × (o ≡ some seen) × (seen + hours * 3600000 ≤ now))
unfolding old_enough
aged_of now zero o h = inl refl
aged_of now (suc hours) none h = absurd (ground arith)
aged_of now (suc hours) (some seen) h = inr (seen, refl, ground arith)

level_of :
    (level current candidate : Text)
    → level_permits level current candidate ≡ true
    → LevelPermits level current candidate
unfolding level_permits
level_of level current candidate h = elim (Bool-cases (is_empty level)) [
  | inl e ↦ inl ((empty_iff level).0 e)
  | inr a ↦ elim (Bool-cases (level === text "all")) [
    | inl e ↦ inr (inl ((===_iff level (text "all")).0 e))
    | inr b ↦ elim (Bool-cases (is_empty current)) [
      | inl e ↦ inr (inr (inl ((empty_iff current).0 e)))
      | inr c ↦ elim (Bool-cases (is_empty candidate)) [
        | inl e ↦ inr (inr (inr (inl ((empty_iff candidate).0 e))))
        | inr d ↦ inr (inr (inr (inr (ground arith))))
      ]
    ]
  ]
]

hold_manual : holds_back (some (text "manual")) ≡ true
unfolding holds_back ◌===◌
hold_manual = refl

hold_notify : holds_back (some (text "notify")) ≡ true
unfolding holds_back ◌===◌
hold_notify = refl

-- A container that passes the filter satisfies what an automatic update asks for.
pub passes-Permitted :
    (now : ℕ) (config : Config) (r : CheckResultItem) (c : Container)
    → passes now config r (some c) ≡ true
    → Permitted now config r c
passes-Permitted now config r c h =
    let (u, p, s, o, l) = passes_parts now config r c h in
    record {
      reported = u;
      not_manual = not_held_back c (text "manual") p hold_manual;
      not_notify = not_held_back c (text "notify") p hold_notify;
      stateless = s;
      aged = aged_of now config.policy.min_age_hours c.update_first_seen o;
      levelled = level_of _ _ _ l;
    }
