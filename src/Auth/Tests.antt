-- ===== src/Auth/Tests.antt =====
-- The theorems on sessions and passwords at concrete inputs.
use watchwarden.Base.{
  ℕ, ◌+◌, ◌≡◌, refl, true, ◌&&◌, Option, none, some, [], ◌∷◌, Text, text, ◌===◌, if◌then◌else◌,
  is_some, is_truthy, ltb,
}
use watchwarden.JsMap
use watchwarden.Auth.{
  Crypto, Request, State, get_config, extract_token, is_admin, require_auth, login, change_password,
  put_password,
}
use watchwarden.Auth.Sessions.{
  VerifiesSigned, passes, with_cookie, refreshed, last_of, login-refreshed,
}
use watchwarden.Auth.Passwords.{put_password-login}

-- Tokens that carry the time at which they were signed as their first code unit, and the role behind it,
-- and hashes that are marked passwords.
abbrev signed_role : Text → Option Text
signed_role [] = none
signed_role (t ∷ role) = some role

abbrev signed_at : Text → ℕ
signed_at [] = 0
signed_at (t ∷ role) = t

abbrev crypto : Crypto
crypto = record {
  compare = λ password hash. hash === (b'$' ∷ password);
  hash_sync = λ salt password. b'$' ∷ password;
  sign = λ role secret t. t ∷ role;
  verify = λ token secret now.
      if ltb now (signed_at token + 7200) then some (signed_role token) else none;
}

verifies : VerifiesSigned crypto
verifies = ((λ role secret t now. refl), (λ role secret t. refl))

abbrev state : State
state = record {
  config = (text "admin_password_hash", text "$hunter22") ∷ (text "jwt_secret", text "s3cret") ∷ [];
  login_failed = [];
}

logs_in : is_some (login crypto 1000 (text "::1") (some (text "hunter22")) state).0.cookie ≡ true
unfolding login get_config JsMap.get ◌===◌
logs_in = refl

login-refreshed_example :
    let r =
      refreshed crypto
        (5000 ∷ 9000 ∷ [])
        state
        (login crypto 1000 (text "::1") (some (text "hunter22")) state).0 in
    passes (require_auth crypto 16000 (with_cookie r.cookie) state)
    ≡ ltb 16000 (last_of 1000 (5000 ∷ 9000 ∷ []) + 7200)
login-refreshed_example =
    login-refreshed crypto 1000 (text "::1") (some (text "hunter22")) (5000 ∷ 9000 ∷ []) 16000 state
      verifies logs_in refl

abbrev request : Request
request = with_cookie (some (1000 ∷ text "admin"))

changes : (put_password crypto 2000 (text "salt") (text "correct horse") request state).0.code ≡ 200
unfolding put_password require_auth extract_token change_password get_config is_admin JsMap.get
    ◌===◌
changes = refl

put_password-login_example :
    let t = (put_password crypto 2000 (text "salt") (text "correct horse") request state).1 in
    (is_some (login crypto 3000 (text "::1") (some (text "hunter22")) t).0.cookie ≡ (
      is_truthy (some (text "hunter22"))
      && crypto.compare (text "hunter22") (crypto.hash_sync (text "salt") (text "correct horse"))))
    × (require_auth crypto 3000 request t ≡ require_auth crypto 3000 request state)
    × (require_auth crypto 2000 request state ≡ none)
put_password-login_example =
    put_password-login crypto 2000 3000 (text "::1") (text "salt") (text "correct horse")
      (text "hunter22") request request state (λ salt password. refl) changes
