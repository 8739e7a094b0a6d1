-- ===== src/Auth.antt =====
-- The sessions of the administrator: the check of a request (controller/src/api/middleware/auth.ts), and
-- login, refresh and the change of the password (controller/src/api/routes/auth.ts). bcrypt and
-- jsonwebtoken are parameters. Times are in seconds; the limits on the rate of requests, the cookie's
-- options and log lines are left out, and the database is taken to answer.
pub mod Sessions
pub mod Passwords
mod Tests
use watchwarden.Base.{
  ℕ, Bool, true, false, not, ◌||◌, Option, none, some, List, [], ◌∷◌, ◌++◌, Text, text, ◌===◌, ltb,
  if◌then◌else◌, or_else, is_truthy, length, drop,
}
use watchwarden.JsMap
use watchwarden.JsMap.{Map}
use watchwarden.Semver.{starts_with}

-- What the routes call: `bcrypt.compare` of a password and a hash; `bcrypt.hashSync` of a password, with
-- its random salt; `jwt.sign` of a role, with a secret, at a time, for two hours; and `jwt.verify` of a
-- token with a secret at a time: the role that it claims, if it has one, or none if it throws.
pub record Crypto : Type 0 where
  pub compare : Text → Text → Bool
  pub hash_sync : Text → Text → Text
  pub sign : Text → Text → ℕ → Text
  pub verify : Text → Text → ℕ → Option (Option Text)

-- The cookie `ww_token` and the header `authorization`.
pub record Request : Type 0 where
  pub cookie : Option Text
  pub authorization : Option Text

-- A reply: its status, and the cookie that it sets, if it does.
pub record Reply : Type 0 where
  pub code : ℕ
  pub cookie : Option Text

-- The table `config`, and the addresses of the failed logins in the audit log.
pub record State : Type 0 where
  pub config : Map Text
  pub login_failed : List Text

unfoldable pub get_config : Text → State → Option Text
get_config key s = JsMap.get key s.config

-- The secret of the tokens, and whether there is one.
abbrev pub secret_of : State → Text
secret_of s = or_else (get_config (text "jwt_secret") s) []

abbrev pub has_secret : State → Bool
has_secret s = is_truthy (get_config (text "jwt_secret") s)

unfoldable pub bearer : Option Text → Option Text
bearer none = none
bearer (some header) = if starts_with (text "Bearer ") header then some (drop 7 header) else none

unfoldable pub extract_token : Request → Option Text
unfolding bearer
extract_token r = if is_truthy r.cookie then r.cookie else bearer r.authorization

abbrev pub refused : ℕ → Option Reply
refused code = some (record { code = code; cookie = none })

-- `decoded.role !== 'admin'`, of a token that verifies.
unfoldable pub is_admin : Option (Option Text) → Bool
is_admin none = false
is_admin (some none) = false
is_admin (some (some role)) = role === text "admin"

module _ (crypto : Crypto) (now : ℕ) where
  -- The reply that ends the request, or none where it goes on.
  unfoldable pub require_auth : Request → State → Option Reply
  unfolding extract_token get_config is_admin
  require_auth r s =
      let token = extract_token r in
      let secret = get_config (text "jwt_secret") s in
      if not (is_truthy token)
      then refused 401
      else if not (is_truthy secret)
      then refused 500
      else if is_admin (crypto.verify (or_else token []) (or_else secret []) now)
      then none
      else refused 401

  -- A new token in the cookie.
  unfoldable pub issue : Text → Reply
  issue secret = record { code = 200; cookie = some (crypto.sign (text "admin") secret now) }

  unfoldable pub refresh : Request → State → Reply
  unfolding extract_token get_config is_admin issue
  refresh r s =
      let token = extract_token r in
      let secret = get_config (text "jwt_secret") s in
      if not (is_truthy token)
      then record { code = 401; cookie = none }
      else if not (is_truthy secret)
      then record { code = 500; cookie = none }
      else if is_admin (crypto.verify (or_else token []) (or_else secret []) now)
      then issue (or_else secret [])
      else record { code = 401; cookie = none }

  unfoldable pub login : (ip : Text) → (password : Option Text) → State → Reply × State
  unfolding get_config issue
  login ip password s =
      let stored_hash = get_config (text "admin_password_hash") s in
      let secret = get_config (text "jwt_secret") s in
      if not (is_truthy password)
      then (record { code = 400; cookie = none }, s)
      else if not (is_truthy stored_hash)
      then (record { code = 401; cookie = none }, s)
      else if not (crypto.compare (or_else password []) (or_else stored_hash []))
      then (
        record { code = 401; cookie = none },
        record s { login_failed = s.login_failed ++ ip ∷ [] },
      )
      else if not (is_truthy secret)
      then (record { code = 500; cookie = none }, s)
      else (issue (or_else secret []), s)

  -- The change of the password, behind the check of the request.
  unfoldable pub change_password : (salt password : Text) → State → Reply × State
  unfolding get_config
  change_password salt password s =
      let current_hash = get_config (text "admin_password_hash") s in
      let is_same =
        if is_truthy current_hash
        then crypto.compare password (or_else current_hash [])
        else false in
      if ltb (length password) 8
      then (record { code = 400; cookie = none }, s)
      else if is_same
      then (record { code = 400; cookie = none }, s)
      else (
        record { code = 200; cookie = none },
        record s {
          config = JsMap.set (text "admin_password_hash") (crypto.hash_sync salt password) s.config;
        },
      )

  unfoldable pub put_password : (salt password : Text) → Request → State → Reply × State
  unfolding require_auth change_password
  put_password salt password r s = elim (require_auth r s) [
    | some refusal ↦ (refusal, s)
    | none ↦ change_password salt password s
  ]
