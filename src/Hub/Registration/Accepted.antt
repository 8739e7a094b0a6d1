-- ===== src/Hub/Registration/Accepted.antt =====
-- Which agents authenticateAgent lets in (controller/src/ws/hub.ts).
use mathlib.Core.List.{Mem, mem-cons}
use mathlib.Core.Logic.Or
use watchwarden.Base.{
  All-and, ◌≡◌, ◌⊎◌, inl, inr, refl, sym, ap, ◌∙◌, Bool, true, false, Option, none, some, List, [],
  ◌∷◌, arith, Text, ◌===◌, ===_iff, ===_refl, if_cases, is_empty, take, find, keep, Option-cases,
  find_sound, All, All-mono, All-keep, All-keep_test,
}
use watchwarden.Hub.Registration.{
  Agent, Registry, RegisterPayload, candidates, has_prefix, has_no_prefix, verifies, is_bcrypt,
  authenticate_agent, insert_recovered, recovered,
}

-- A member of the list that a token may belong to.
abbrev pub IsCandidate : Text → List Agent → Agent → Type 0
IsCandidate prefix agents a =
    Mem a agents × ((a.token_prefix ≡ some prefix) ⊎ (a.token_prefix ≡ none))

All-Mem : (l : List Agent) → All (λ a. Mem a l) l
All-Mem [] = tt
All-Mem (x ∷ l) =
    (mem-cons.1 (Or.inl refl), All-mono _ _ l (λ a m. mem-cons.1 (Or.inr m)) (All-Mem l))

no_prefix_is_none :
    (prefix : Text) (o : Option Text)
    → o ≡ none
    → elim o as (λ x. Bool) [ none ↦ false | some p ↦ p === prefix ] ≡ true
    → ⊥
no_prefix_is_none prefix none n h = cc
no_prefix_is_none prefix (some p) n h = cc

some_prefix :
    (prefix p : Text) (o : Option Text)
    → o ≡ some p
    → elim o as (λ x. Bool) [ none ↦ false | some q ↦ q === prefix ] ≡ true
    → (p === prefix) ≡ true
some_prefix prefix p o e h =
    ap (λ o. elim o as (λ x. Bool) [ none ↦ false | some q ↦ q === prefix ]) (sym e) ∙ h

some_is_not_none :
    (p : Text) (o : Option Text)
    → o ≡ some p
    → elim o as (λ x. Bool) [ none ↦ true | some q ↦ false ] ≡ true
    → ⊥
some_is_not_none p none e h = cc
some_is_not_none p (some q) e h = cc

none_is_not_some :
    (o : Option Agent) (id : Text)
    → o ≡ none
    → elim o as (λ x. Option Text) [ none ↦ none | some a ↦ some a.id ] ≡ some id
    → ⊥
none_is_not_some none id n e = cc
none_is_not_some (some a) id n e = cc

some_same : {s t : Text} → some s ≡ some t → s ≡ t
some_same e = cc

id_of :
    (o : Option Agent) (a : Agent) (id : Text)
    → o ≡ some a
    → elim o as (λ x. Option Text) [ none ↦ none | some a ↦ some a.id ] ≡ some id
    → a.id ≡ id
id_of o a id f e =
    some_same
      (sym (ap (λ o. elim o as (λ x. Option Text) [ none ↦ none | some a ↦ some a.id ]) f) ∙ e)

prefix_of : (prefix : Text) (a : Agent) → has_prefix prefix a ≡ true → a.token_prefix ≡ some prefix
unfolding has_prefix
prefix_of prefix a h = elim (Option-cases a.token_prefix) [
  | inl n ↦ absurd (no_prefix_is_none prefix a.token_prefix n h)
  | inr (p, e) ↦ e ∙ ap some ((===_iff p prefix).0 (some_prefix prefix p a.token_prefix e h))
]

none_of : (a : Agent) → has_no_prefix a ≡ true → a.token_prefix ≡ none
unfolding has_no_prefix
none_of a h = elim (Option-cases a.token_prefix) [
  | inl n ↦ n
  | inr (p, e) ↦ absurd (some_is_not_none p a.token_prefix e h)
]

candidates-All :
    (prefix : Text) (agents : List Agent)
    → All (IsCandidate prefix agents) (candidates prefix agents)
unfolding candidates
candidates-All prefix agents =
    if_cases (All (IsCandidate prefix agents)) (is_empty (keep (has_prefix prefix) agents))
      (All-mono _ _ (keep has_no_prefix agents) (λ a (m, h). (m, inr (none_of a h)))
        (All-and _ _ _ (All-keep _ has_no_prefix agents (All-Mem agents))
          (All-keep_test has_no_prefix agents)))
      (All-mono _ _ (keep (has_prefix prefix) agents) (λ a (m, h). (m, inl (prefix_of prefix a h)))
        (All-and _ _ _ (All-keep _ (has_prefix prefix) agents (All-Mem agents))
          (All-keep_test (has_prefix prefix) agents)))

module _ (bcrypt_compare : Text → Text → Bool) (sha256 decode_hex : Text → Text) where
  -- A token lets in only as an agent of the list whose stored hash it verifies, and whose stored
  -- prefix is the token's, or is missing.
  pub authenticate_agent_sound :
      (token : Text) (agents : List Agent) (id : Text)
      → authenticate_agent bcrypt_compare sha256 decode_hex token agents ≡ some id
      → (a : Agent) × (a.id ≡ id)
        × IsCandidate (take 8 token) agents a
        × (verifies bcrypt_compare sha256 decode_hex token a ≡ true)
  unfolding authenticate_agent
  authenticate_agent_sound token agents id e =
      let test = verifies bcrypt_compare sha256 decode_hex token in
      let l = candidates (take 8 token) agents in
      elim (Option-cases (find test l)) [
        | inl n ↦ absurd (none_is_not_some (find test l) id n e)
        | inr (a, f) ↦
            let (c, v) =
              find_sound (IsCandidate (take 8 token) agents) test l a f
                (candidates-All (take 8 token) agents) in
            (a, id_of (find test l) a id f e, c, v)
      ]

  -- Where bcrypt's hashes begin as bcrypt's do, an agent that recovery mode has just inserted is
  -- let in, as itself, by its token.
  pub recovered_authenticates :
      (p : RegisterPayload) (agent_id token_hash name : Text) (r : Registry)
      → is_bcrypt token_hash ≡ true
      → bcrypt_compare p.token token_hash ≡ true
      → authenticate_agent bcrypt_compare sha256 decode_hex p.token
          (insert_recovered p agent_id token_hash name r).agents
        ≡ some agent_id
  unfolding authenticate_agent insert_recovered recovered candidates verifies has_prefix
  recovered_authenticates p agent_id token_hash name r h k =
      ground (arith, ===_refl (take 8 p.token))
