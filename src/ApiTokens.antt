-- ===== src/ApiTokens.antt =====
-- API tokens: their table (controller/src/db/queries.ts), creation and revocation
-- (controller/src/api/routes/api-tokens.ts), and the checks of a request
-- (controller/src/api/middleware/api-token-auth.ts). PBKDF2 and the decoding of hexadecimal text are
-- parameters. Identifiers, random text and times are arguments. `scopes` is the list whose JSON the
-- table holds; a time in the table is not 0.
pub mod Requests
pub mod Lifecycle
mod Tests
use mathlib.Core.List.{reverse}
use watchwarden.Base.{
  ℕ, ◌+◌, ◌*◌, Bool, true, false, not, ◌&&◌, ◌||◌, Option, none, some, List, [], ◌∷◌, ◌++◌, map,
  Text, text, ◌===◌, ltb, ◌==◌, if◌then◌else◌, is_empty, is_some, keep, any, every, find, length,
  take, drop,
}
use watchwarden.JsMap
use watchwarden.Semver.{starts_with, skip_space}

pub record ApiToken : Type 0 where
  pub id : Text
  pub name : Text
  pub token_hash : Text
  pub token_prefix : Text
  pub hash_version : ℕ
  pub scopes : List Text
  pub created_at : ℕ
  pub expires_at : Option ℕ
  pub last_used_at : Option ℕ
  pub revoked_at : Option ℕ

-- node:crypto and Buffer, as far as the checks use them.
pub record Crypto : Type 0 where
  pub hash_api_token : Text → Text → Text
  pub decode_hex : Text → Text

abbrev pub current_hash_version : ℕ
current_hash_version = 1

-- `WHERE token_prefix = … AND revoked_at IS NULL`
unfoldable pub list_api_tokens_by_prefix : Text → List ApiToken → List ApiToken
list_api_tokens_by_prefix prefix tokens =
    keep (λ t. t.token_prefix === prefix && not (is_some t.revoked_at)) tokens

-- `UPDATE api_tokens SET … WHERE id = …`
unfoldable pub update_where : Text → (ApiToken → ApiToken) → List ApiToken → List ApiToken
update_where id change [] = []
update_where id change (t ∷ tokens) =
    (if t.id === id then change t else t) ∷ update_where id change tokens

unfoldable pub revoke_api_token : Text → ℕ → List ApiToken → List ApiToken
unfolding update_where
revoke_api_token id now tokens = update_where id (λ t. record t { revoked_at = some now }) tokens

unfoldable pub touch_api_token_last_used : Text → ℕ → List ApiToken → List ApiToken
unfolding update_where
touch_api_token_last_used id now tokens =
    update_where id (λ t. record t { last_used_at = some now }) tokens

-- The two headers that can carry a token.
pub record Headers : Type 0 where
  pub authorization : Option Text
  pub x_ww_token : Option Text

-- "X-WW-Token: <token>", unless it is empty.
ww_token : Option Text → Option Text
ww_token none = none
ww_token (some s) = if is_empty s then none else some s

unfoldable pub extract_api_token : Option Text → Option Text → Option Text
unfolding ww_token starts_with
extract_api_token none x_ww_token = ww_token x_ww_token
extract_api_token (some header) x_ww_token =
    if starts_with (text "Bearer ") header then some (drop 7 header) else ww_token x_ww_token

pub data Refusal : Type 0 where
  token_required invalid_token legacy_token : Refusal

-- The outcome of `requireApiToken`: the request has its token, or a 401 is sent.
pub data Auth : Type 0 where
  authenticated : ApiToken → Auth
  refused : Refusal → Auth

unfoldable pub has_expired : Option ℕ → ℕ → Bool
has_expired none now = false
has_expired (some at) now = ltb at now

-- The checks on the token that matched.
check_match : ApiToken → ℕ → Auth
unfolding has_expired
check_match t now =
    if is_some t.revoked_at
    then refused invalid_token
    else if has_expired t.expires_at now
    then refused invalid_token
    else authenticated t

is_legacy : ApiToken → Bool
is_legacy t = ltb t.hash_version current_hash_version

finish_match : Option ApiToken → List ApiToken → ℕ → Auth
unfolding check_match is_legacy
finish_match none candidates now =
    if any is_legacy candidates then refused legacy_token else refused invalid_token
finish_match (some t) candidates now = check_match t now

module _ (c : Crypto) where
  -- `timingSafeEqual` compares the decoded bytes.
  safe_hash_equal : Text → Text → Bool
  safe_hash_equal a b =
      if not (length a == length b) then false else c.decode_hex a === c.decode_hex b

  is_match : Text → ApiToken → Bool
  unfolding safe_hash_equal is_legacy
  is_match hash t = if is_legacy t then false else safe_hash_equal t.token_hash hash

  -- From the raw token on.
  check_raw : Option Text → Text → ℕ → List ApiToken → Auth
  unfolding is_match finish_match list_api_tokens_by_prefix
  check_raw none salt now tokens = refused token_required
  check_raw (some raw) salt now tokens =
      let candidates = list_api_tokens_by_prefix (take 8 raw) tokens in
      if is_empty raw
      then refused token_required
      else if ltb (length raw) 32
      then refused invalid_token
      else if is_empty candidates
      then refused invalid_token
      else finish_match (find (is_match (c.hash_api_token raw salt)) candidates) candidates now

  unfoldable pub require_api_token : Headers → Text → ℕ → List ApiToken → Auth
  unfolding check_raw extract_api_token
  require_api_token headers salt now tokens =
      check_raw (extract_api_token headers.authorization headers.x_ww_token) salt now tokens

-- What `requireScope` does with the request's token.
pub data Scoped : Type 0 where
  allowed : Scoped
  unauthenticated : Scoped
  insufficient : Scoped

unfoldable pub require_scope : List Text → Option ApiToken → Scoped
require_scope required none = unauthenticated
require_scope required (some t) =
    if JsMap.member (text "full") t.scopes
    then allowed
    else if any (λ s. JsMap.member s t.scopes) required
    then allowed
    else insufficient

abbrev pub valid_scopes : List Text
valid_scopes = text "full" ∷ text "read" ∷ text "write" ∷ []

abbrev pub max_token_name_length : ℕ
max_token_name_length = 128

unfoldable pub trim : Text → Text
unfolding skip_space
trim s = reverse (skip_space (reverse (skip_space s)))

pub data Response : Type 0 where
  created : (raw_token : Text) → ApiToken → Response
  no_content : Response
  bad_request not_found conflict : Response

unfoldable pub are_valid : List Text → Bool
are_valid scopes = not (is_empty scopes) && every (λ s. JsMap.member s valid_scopes) scopes

unfoldable pub expiry : Option ℕ → ℕ → Option ℕ
expiry none now = none
expiry (some days) now = if ltb 0 days then some (now + days * 24 * 60 * 60 * 1000) else none

unfoldable pub scopes_or_full : Option (List Text) → List Text
scopes_or_full none = text "full" ∷ []
scopes_or_full (some scopes) = scopes

-- POST /api/api-tokens. `random` is the hexadecimal text of 32 random bytes; a missing name is the
-- empty one, which is refused alike, and the days are whole.
unfoldable pub create_token :
    Crypto
    → Text
    → Text
    → Text
    → Text
    → Option (List Text)
    → Option ℕ
    → ℕ
    → List ApiToken
    → Response × List ApiToken
unfolding trim are_valid expiry scopes_or_full
create_token c salt id random name scopes days now tokens =
    let raw = text "ww_" ++ random in
    let token : ApiToken = record {
      id = id;
      name = trim name;
      token_hash = c.hash_api_token raw salt;
      token_prefix = take 8 raw;
      hash_version = current_hash_version;
      scopes = scopes_or_full scopes;
      created_at = now;
      expires_at = expiry days now;
      last_used_at = none;
      revoked_at = none;
    } in
    if is_empty (trim name)
    then (bad_request, tokens)
    else if ltb max_token_name_length (length (trim name))
    then (bad_request, tokens)
    else if not (are_valid (scopes_or_full scopes))
    then (bad_request, tokens)
    else (created raw token, tokens ++ token ∷ [])

revoke_found : Option ApiToken → Text → ℕ → List ApiToken → Response × List ApiToken
unfolding revoke_api_token
revoke_found none id now tokens = (not_found, tokens)
revoke_found (some t) id now tokens =
    if is_some t.revoked_at
    then (conflict, tokens)
    else (no_content, revoke_api_token id now tokens)

-- DELETE /api/api-tokens/:id
unfoldable pub delete_token : Text → ℕ → List ApiToken → Response × List ApiToken
unfolding revoke_found
delete_token id now tokens = revoke_found (find (λ t. t.id === id) tokens) id now tokens
