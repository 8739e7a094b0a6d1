-- ===== src/ApiTokens/Tests.antt =====
-- The theorems of the API tokens at concrete inputs.
use watchwarden.Base.{
  ◌≤◌, ◌≡◌, ◌≢◌, refl, true, none, some, [], ◌∷◌, ◌++◌, Text, text, ◌===◌, if◌then◌else◌, length,
  take, replicate,
}
use watchwarden.JsMap
use watchwarden.ApiTokens.{
  ApiToken, Crypto, Headers, authenticated, refused, invalid_token, extract_api_token,
  require_api_token, create_token, delete_token, created, no_content, list_api_tokens_by_prefix,
  trim, are_valid, has_expired, expiry,
}
use watchwarden.ApiTokens.Requests.{Admits, require_api_token_sound}
use watchwarden.ApiTokens.Lifecycle.{create_token-require, delete_token_ends}

-- A stand-in for PBKDF2.
abbrev crypto : Crypto
crypto = record { hash_api_token = λ raw salt. raw ++ salt; decode_hex = λ s. s }

abbrev salt : Text
salt = text "salt"

abbrev random : Text
random = replicate 64 b'a'

abbrev raw : Text
raw = text "ww_" ++ random

abbrev token : ApiToken
token = record {
  id = text "t1";
  name = text "grafana";
  token_hash = raw ++ salt;
  token_prefix = take 8 raw;
  hash_version = 1;
  scopes = text "read" ∷ [];
  created_at = 1000;
  expires_at = none;
  last_used_at = none;
  revoked_at = none;
}

abbrev headers : Headers
headers = record { authorization = none; x_ww_token = some raw }

let_in : require_api_token crypto headers salt 2000 (token ∷ []) ≡ authenticated token
unfolding require_api_token ◌===◌
let_in = refl

require_api_token_sound_example :
    (raw' : Text) × (extract_api_token headers.authorization headers.x_ww_token ≡ some raw')
    × (32 ≤ length raw')
    × (token.id ≡ text "t1")
    × Admits crypto salt raw' 2000 token
require_api_token_sound_example =
    require_api_token_sound crypto (λ t. t.id ≡ text "t1") headers salt 2000 (token ∷ []) token
      (refl, tt) let_in

was_created :
    (create_token crypto salt
      (text "t1")
      random
      (text "grafana")
      (some (text "read" ∷ []))
      none
      1000
      []).0
    ≡ created raw token
unfolding create_token JsMap.member ◌===◌
was_created = refl

none_before : list_api_tokens_by_prefix (take 8 raw) [] ≡ []
unfolding list_api_tokens_by_prefix
none_before = refl

create_token-require_example :
    (token.name ≡ trim (text "grafana"))
    × (1 ≤ length token.name)
    × (length token.name ≤ 128)
    × (are_valid token.scopes ≡ true)
    × (require_api_token crypto
          (record { authorization = none; x_ww_token = some raw })
          salt
          2000
          (create_token crypto salt
            (text "t1")
            random
            (text "grafana")
            (some (text "read" ∷ []))
            none
            1000
            []).1
        ≡ (if has_expired (expiry none 1000) 2000
            then refused invalid_token
            else authenticated token))
create_token-require_example =
    create_token-require crypto salt (text "t1") random (text "grafana") (some (text "read" ∷ []))
      none 1000 2000 [] raw token refl none_before was_created

-- Another token of the table, with its raw text.
abbrev raw2 : Text
raw2 = text "ww_" ++ replicate 64 b'b'

abbrev token2 : ApiToken
token2 = record token { id = text "t2"; token_hash = raw2 ++ salt; token_prefix = take 8 raw2 }

abbrev headers2 : Headers
headers2 = record { authorization = none; x_ww_token = some raw2 }

was_deleted : (delete_token (text "t1") 3000 (token ∷ token2 ∷ [])).0 ≡ no_content
unfolding delete_token ◌===◌
was_deleted = refl

other_let_in :
    require_api_token crypto headers2 salt 4000
      (delete_token (text "t1") 3000 (token ∷ token2 ∷ [])).1
    ≡ authenticated token2
unfolding delete_token require_api_token ◌===◌
other_let_in = refl

delete_token_ends_test : token2.id ≢ text "t1"
delete_token_ends_test =
    delete_token_ends crypto (text "t1") 3000 4000 (token ∷ token2 ∷ []) headers2 salt token2
      was_deleted other_let_in
