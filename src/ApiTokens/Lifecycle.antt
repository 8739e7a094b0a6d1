-- ===== src/ApiTokens/Lifecycle.antt =====
-- From the creation of a token to its end (controller/src/api/routes/api-tokens.ts and
-- controller/src/api/middleware/api-token-auth.ts).
use watchwarden.Base.{
  ℕ, ◌≤◌, ◌≡◌, ◌≢◌, ap, ◌∙◌, refl, true, false, Option, none, some, List, [], ◌∷◌, ◌++◌, arith,
  Text, text, ◌===◌, ===_iff, ===_refl, if◌then◌else◌, is_empty, is_some, find, length, take, All,
}
use watchwarden.ApiTokens.{
  ApiToken, Crypto, Headers, authenticated, refused, invalid_token, extract_api_token,
  list_api_tokens_by_prefix, safe_hash_equal, is_match, check_raw, finish_match, check_match,
  has_expired, is_legacy, require_api_token, update_where, revoke_api_token, revoke_found,
  delete_token, create_token, created, no_content, expiry, are_valid, scopes_or_full, ww_token,
  trim,
}
use watchwarden.ApiTokens.Requests.{require_api_token_sound}

revoked_is_none : {o : Option ℕ} → is_some o ≡ true → o ≡ none → ⊥
revoked_is_none {o} h e = ground arith

-- A token other than the given one, or one that is revoked.
abbrev IsOut : Text → ApiToken → Type 0
IsOut id t = t.id ≡ id → is_some t.revoked_at ≡ true

revoked_one :
    (id : Text) (now : ℕ) (t : ApiToken)
    → IsOut id (if t.id === id then record t { revoked_at = some now } else t)
revoked_one id now t = ground (arith, ===_iff t.id id)

revoked-All :
    (id : Text) (now : ℕ) (tokens : List ApiToken) → All (IsOut id) (revoke_api_token id now tokens)
unfolding revoke_api_token update_where
revoked-All id now [] = tt
revoked-All id now (t ∷ tokens) = (revoked_one id now t, revoked-All id now tokens)

revoke_found-All :
    (o : Option ApiToken) (id : Text) (now : ℕ) (tokens : List ApiToken)
    → (revoke_found o id now tokens).0 ≡ no_content
    → All (IsOut id) (revoke_found o id now tokens).1
unfolding revoke_found
revoke_found-All none id now tokens h = cc
revoke_found-All (some t) id now tokens h = ground (arith, revoked-All id now tokens)

-- Once a token is revoked, no request is authenticated by it, at any time and whatever it carries.
pub delete_token_ends :
    (c : Crypto) (id : Text) (now later : ℕ) (tokens : List ApiToken) (headers : Headers)
    (salt : Text) (t : ApiToken)
    → (delete_token id now tokens).0 ≡ no_content
    → require_api_token c headers salt later (delete_token id now tokens).1 ≡ authenticated t
    → t.id ≢ id
unfolding delete_token
delete_token_ends c id now later tokens headers salt t d h e =
    let all_out = revoke_found-All (find (λ t. t.id === id) tokens) id now tokens d in
    let (raw, _, _, out, admits) =
      require_api_token_sound c (IsOut id) headers salt later (delete_token id now tokens).1 t
        all_out h in
    revoked_is_none (out e) admits.revoked

list-append_one :
    (prefix : Text) (tokens : List ApiToken) (t : ApiToken)
    → list_api_tokens_by_prefix prefix tokens ≡ []
    → t.token_prefix ≡ prefix
    → t.revoked_at ≡ none
    → list_api_tokens_by_prefix prefix (tokens ++ t ∷ []) ≡ t ∷ []
unfolding list_api_tokens_by_prefix
list-append_one prefix [] t e p r = rw (p, ===_refl prefix, r)
list-append_one prefix (x ∷ tokens) t e p r = ground (arith, list-append_one prefix tokens t)

check_created :
    (c : Crypto) (raw salt : Text) (later : ℕ) (tokens : List ApiToken) (t : ApiToken)
    → 32 ≤ length raw
    → list_api_tokens_by_prefix (take 8 raw) tokens ≡ []
    → t.token_prefix ≡ take 8 raw
    → t.token_hash ≡ c.hash_api_token raw salt
    → t.hash_version ≡ 1
    → t.revoked_at ≡ none
    → check_raw c (some raw) salt later (tokens ++ t ∷ [])
      ≡ (if has_expired t.expires_at later then refused invalid_token else authenticated t)
unfolding check_raw is_match safe_hash_equal finish_match check_match is_legacy
check_created c raw salt later tokens t long alone p h v r = ground (
  arith,
  list-append_one (take 8 raw) tokens t alone,
  ===_refl (c.decode_hex (c.hash_api_token raw salt)),
)

-- What a creation that succeeds has done.
record Creates (c : Crypto) (salt random name : Text) (scopes : Option (List Text))
    (days : Option ℕ) (now : ℕ) (tokens table : List ApiToken) (raw : Text) (t : ApiToken)
    : Type 0 where
  raw_text : raw ≡ text "ww_" ++ random
  named : t.name ≡ trim name
  lower : 1 ≤ length t.name
  upper : length t.name ≤ 128
  valid : are_valid (scopes_or_full scopes) ≡ true
  scoped : t.scopes ≡ scopes_or_full scopes
  stored : table ≡ tokens ++ t ∷ []
  prefix : t.token_prefix ≡ take 8 raw
  hash : t.token_hash ≡ c.hash_api_token raw salt
  version : t.hash_version ≡ 1
  live : t.revoked_at ≡ none
  ends : t.expires_at ≡ expiry days now

one_of_not_empty : (s : Text) → is_empty s ≡ false → 1 ≤ length s
one_of_not_empty [] h = cc
one_of_not_empty (x ∷ s) h = omega arith

create_token-Creates :
    (c : Crypto) (salt id random name : Text) (scopes : Option (List Text)) (days : Option ℕ)
    (now : ℕ) (tokens : List ApiToken) (raw : Text) (t : ApiToken)
    → (create_token c salt id random name scopes days now tokens).0 ≡ created raw t
    → Creates c salt random name scopes days now tokens
        (create_token c salt id random name scopes days now tokens).1
        raw
        t
unfolding create_token
create_token-Creates c salt id random name scopes days now tokens raw t h =
    ground (arith, one_of_not_empty (trim name))

carried : (raw : Text) → 32 ≤ length raw → extract_api_token none (some raw) ≡ some raw
unfolding extract_api_token ww_token
carried [] h = absurd (omega arith)
carried (x ∷ raw) h = refl

-- A token that is created has a trimmed name of 1 to 128 characters and valid scopes; the raw text
-- that is returned lets a request in by that very token until it expires, if it ever does, and not
-- after, as long as no other live token begins with the same 8 characters.
pub create_token-require :
    (c : Crypto) (salt id random name : Text) (scopes : Option (List Text)) (days : Option ℕ)
    (now later : ℕ) (tokens : List ApiToken) (raw : Text) (t : ApiToken)
    → length random ≡ 64
    → list_api_tokens_by_prefix (take 8 raw) tokens ≡ []
    → (create_token c salt id random name scopes days now tokens).0 ≡ created raw t
    → (t.name ≡ trim name)
      × (1 ≤ length t.name)
      × (length t.name ≤ 128)
      × (are_valid t.scopes ≡ true)
      × (require_api_token c
            (record { authorization = none; x_ww_token = some raw })
            salt
            later
            (create_token c salt id random name scopes days now tokens).1
          ≡ (if has_expired (expiry days now) later
              then refused invalid_token
              else authenticated t))
unfolding require_api_token
create_token-require c salt id random name scopes days now later tokens raw t n alone h =
    let k = create_token-Creates c salt id random name scopes days now tokens raw t h in
    let table = (create_token c salt id random name scopes days now tokens).1 in
    let long : 32 ≤ length raw = omega (arith, ap length k.raw_text) in
    let checked =
      check_created c raw salt later tokens t long alone k.prefix k.hash k.version k.live in
    (
      k.named,
      k.lower,
      k.upper,
      ap are_valid k.scoped ∙ k.valid,
      ap (λ o. check_raw c o salt later table) (carried raw long)
          ∙ ap (check_raw c (some raw) salt later) k.stored
          ∙ checked
          ∙ ap (λ e. if has_expired e later then refused invalid_token else authenticated t) k.ends,
    )
