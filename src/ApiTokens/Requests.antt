-- ===== src/ApiTokens/Requests.antt =====
-- Which requests are let in (controller/src/api/middleware/api-token-auth.ts).
use watchwarden.Base.{
  ap, ℕ, ◌≤◌, ◌≡◌, ◌⊎◌, ◌↔◌, refl, true, false, not, ◌&&◌, Option, none, some, List, [], ◌∷◌, arith,
  Text, text, ◌===◌, ===_iff, is_some, any, find, find_sound, length, take, All, All-keep,
}
use mathlib.Core.Path.{subst}
use watchwarden.JsMap
use watchwarden.ApiTokens.{
  ApiToken, Crypto, Headers, Refusal, Auth, authenticated, refused, extract_api_token,
  list_api_tokens_by_prefix, safe_hash_equal, is_match, check_raw, finish_match, check_match,
  has_expired, is_legacy, require_api_token, allowed, require_scope,
}

-- The token has not run out.
abbrev pub IsCurrent : Option ℕ → ℕ → Type 0
IsCurrent none now = Unit
IsCurrent (some at) now = now ≤ at

-- A token that lets a raw text in.
pub record Admits (c : Crypto) (salt raw : Text) (now : ℕ) (t : ApiToken) : Type 0 where
  pub prefix : t.token_prefix ≡ take 8 raw
  pub version : 1 ≤ t.hash_version
  pub size : length t.token_hash ≡ length (c.hash_api_token raw salt)
  pub hash : c.decode_hex t.token_hash ≡ c.decode_hex (c.hash_api_token raw salt)
  pub revoked : t.revoked_at ≡ none
  pub current : IsCurrent t.expires_at now

abbrev AllFit : Text → List ApiToken → Type 0
AllFit prefix = All (λ t. (t.token_prefix ≡ prefix) × (t.revoked_at ≡ none))

candidates_fit :
    (prefix : Text) (tokens : List ApiToken)
    → AllFit prefix (list_api_tokens_by_prefix prefix tokens)
unfolding list_api_tokens_by_prefix
candidates_fit prefix [] = tt
candidates_fit prefix (t ∷ tokens) =
    ground (arith, candidates_fit prefix tokens, ===_iff t.token_prefix prefix)

IsCurrent-of : (o : Option ℕ) (now : ℕ) → has_expired o now ≡ false → IsCurrent o now
unfolding has_expired
IsCurrent-of none now h = tt
IsCurrent-of (some at) now h = ground arith

refused≢authenticated :
    {r : Refusal} {t : ApiToken} → ◌≡◌ {A = Auth} (refused r) (authenticated t) → ⊥
refused≢authenticated h = cc

module _ (c : Crypto) where
  is_match-lem :
      (hash : Text) (t : ApiToken)
      → is_match c hash t ≡ true
      → (1 ≤ t.hash_version)
        × (length t.token_hash ≡ length hash)
        × (c.decode_hex t.token_hash ≡ c.decode_hex hash)
  unfolding is_match safe_hash_equal is_legacy
  is_match-lem hash t h = ground (arith, ===_iff (c.decode_hex t.token_hash) (c.decode_hex hash))

  finish_match_sound :
      (o : Option ApiToken) (cs : List ApiToken) (now : ℕ) (t : ApiToken)
      → finish_match o cs now ≡ authenticated t
      → (o ≡ some t) × IsCurrent t.expires_at now
  unfolding finish_match check_match has_expired
  finish_match_sound none cs now t h = ground arith
  finish_match_sound (some x) cs now t h =
      let same : x ≡ t = ground arith in
      let live : has_expired x.expires_at now ≡ false = ground arith in
      (
        ap some same,
        subst (λ y. IsCurrent y.expires_at now) same (IsCurrent-of x.expires_at now live),
      )

  -- A raw text is let in by a token of the table that admits it; what holds of all tokens of the
  -- table holds of that one.
  check_raw_sound {ℓ} :
      (P : ApiToken → Type ℓ) (o : Option Text) (salt : Text) (now : ℕ) (tokens : List ApiToken)
      (t : ApiToken)
      → All P tokens
      → check_raw c o salt now tokens ≡ authenticated t
      → (raw : Text) × (o ≡ some raw) × (32 ≤ length raw) × P t × Admits c salt raw now t
  unfolding check_raw list_api_tokens_by_prefix
  check_raw_sound P none salt now tokens t a h = absurd (refused≢authenticated h)
  check_raw_sound P (some raw) salt now tokens t a h =
      let prefix = take 8 raw in
      let hash = c.hash_api_token raw salt in
      let candidates = list_api_tokens_by_prefix prefix tokens in
      let found = find (is_match c hash) candidates in
      let long : 32 ≤ length raw = ground arith in
      let finished : finish_match found candidates now ≡ authenticated t = ground arith in
      let (e, current) = finish_match_sound found candidates now t finished in
      let fits = candidates_fit prefix tokens in
      let ((p, r), m) = find_sound _ (is_match c hash) candidates t e fits in
      let (held, _) =
        find_sound P (is_match c hash) candidates t e
          (All-keep P (λ t. t.token_prefix === prefix && not (is_some t.revoked_at)) tokens a) in
      let (version, size, same) = is_match-lem hash t m in
      (
        raw,
        refl,
        long,
        held,
        record {
          prefix = p;
          version = version;
          size = size;
          hash = same;
          revoked = r;
          current = current;
        },
      )

  -- A request is authenticated only by a token of the table whose prefix and hash are those of the
  -- text that the request carries, which has at least 32 characters; the hash has the present
  -- version, and the token is neither revoked nor past its expiry.
  pub require_api_token_sound {ℓ} :
      (P : ApiToken → Type ℓ) (headers : Headers) (salt : Text) (now : ℕ) (tokens : List ApiToken)
      (t : ApiToken)
      → All P tokens
      → require_api_token c headers salt now tokens ≡ authenticated t
      → (raw : Text) × (extract_api_token headers.authorization headers.x_ww_token ≡ some raw)
        × (32 ≤ length raw)
        × P t
        × Admits c salt raw now t
  unfolding require_api_token
  require_api_token_sound P headers salt now tokens t a h =
      check_raw_sound P (extract_api_token headers.authorization headers.x_ww_token) salt now tokens
        t a h

-- A request passes a scope check exactly when its token has the scope "full" or one of those that
-- are required.
pub require_scope_iff :
    (required : List Text) (t : ApiToken)
    → (require_scope required (some t) ≡ allowed) ↔ (
        (JsMap.member (text "full") t.scopes ≡ true)
        ⊎ (any (λ s. JsMap.member s t.scopes) required ≡ true))
unfolding require_scope
require_scope_iff required t = ground arith
