-- ===== src/Auth/Passwords.antt =====
-- The change of the administrator's password (controller/src/api/routes/auth.ts).
use watchwarden.Base.{
  ℕ, ◌≡◌, refl, ap, ◌∙◌, Bool, true, false, not, ◌&&◌, Option, none, some, [], arith, Text, text,
  ◌===◌, is_truthy, is_some, or_else, if_split, ◌==◌,
}
use watchwarden.JsMap
use watchwarden.JsMap.{get-set}
use watchwarden.Auth.{
  secret_of, has_secret, Crypto, Request, Reply, State, get_config, is_admin, extract_token,
  require_auth, issue, login, change_password, put_password,
}

not-false : (b : Bool) → not b ≡ false → b ≡ true
not-false b h = ground arith

-- The state after the password is changed.
abbrev with_password : Crypto → (salt password : Text) → State → State
with_password crypto salt password s = record s {
  config = JsMap.set (text "admin_password_hash") (crypto.hash_sync salt password) s.config;
}

change_password-accepted :
    (crypto : Crypto) (now : ℕ) (salt password : Text) (s : State)
    → (change_password crypto now salt password s).0.code ≡ 200
    → (change_password crypto now salt password s).1 ≡ with_password crypto salt password s
unfolding change_password
change_password-accepted crypto now salt password s h = ground arith

-- Where a request goes on there is a secret; a refusal is not a success.
abbrev IsOutcome : Bool → Option Reply → Type 0
IsOutcome secret none = secret ≡ true
IsOutcome secret (some refusal) = (refusal.code == 200) ≡ false

require_auth-IsOutcome :
    (crypto : Crypto) (now : ℕ) (r : Request) (s : State)
    → IsOutcome (has_secret s) (require_auth crypto now r s)
unfolding require_auth
require_auth-IsOutcome crypto now r s =
    if_split (IsOutcome (has_secret s)) (not (is_truthy (extract_token r))) (λ _. refl)
      (λ _.
        if_split (IsOutcome (has_secret s)) (not (has_secret s)) (λ _. refl)
          (λ h.
            if_split (IsOutcome (has_secret s))
              (is_admin (crypto.verify (or_else (extract_token r) []) (secret_of s) now))
              (λ _. not-false (has_secret s) h) (λ _. refl)))

put_password-accepted :
    (crypto : Crypto) (now : ℕ) (salt password : Text) (r : Request) (s : State)
    → (put_password crypto now salt password r s).0.code ≡ 200
    → (has_secret s ≡ true)
      × ((put_password crypto now salt password r s).1 ≡ with_password crypto salt password s)
      × (require_auth crypto now r s ≡ none)
unfolding put_password
put_password-accepted crypto now salt password r s =
    by_outcome (require_auth crypto now r s) (require_auth-IsOutcome crypto now r s)
  where
    after : Option Reply → Reply × State
    after o = elim o [
      | some refusal ↦ (refusal, s)
      | none ↦ change_password crypto now salt password s
    ]

    by_outcome :
        (o : Option Reply)
        → IsOutcome (has_secret s) o
        → (after o).0.code ≡ 200
        → (has_secret s ≡ true) × ((after o).1 ≡ with_password crypto salt password s) × (o ≡ none)
    by_outcome none k h = (k, change_password-accepted crypto now salt password s h, refl)
    by_outcome (some refusal) k h = ground arith

password_of-with_password :
    (crypto : Crypto) (salt password : Text) (s : State)
    → get_config (text "admin_password_hash") (with_password crypto salt password s)
      ≡ some (crypto.hash_sync salt password)
unfolding get_config ◌===◌
password_of-with_password crypto salt password s =
    get-set (text "admin_password_hash") (text "admin_password_hash")
      (crypto.hash_sync salt password) s.config

secret_of-with_password :
    (crypto : Crypto) (salt password : Text) (s : State)
    → get_config (text "jwt_secret") (with_password crypto salt password s)
      ≡ get_config (text "jwt_secret") s
unfolding get_config ◌===◌
secret_of-with_password crypto salt password s =
    get-set (text "admin_password_hash") (text "jwt_secret") (crypto.hash_sync salt password)
      s.config

login-with_password :
    (crypto : Crypto) (now : ℕ) (ip salt password attempt : Text) (s : State)
    → has_secret s ≡ true
    → is_truthy (some (crypto.hash_sync salt password)) ≡ true
    → is_some (login crypto now ip (some attempt) (with_password crypto salt password s)).0.cookie
      ≡ (is_truthy (some attempt) && crypto.compare attempt (crypto.hash_sync salt password))
unfolding login issue
login-with_password crypto now ip salt password attempt s h k =
    rw
      (
        password_of-with_password crypto salt password s,
        secret_of-with_password crypto salt password s,
        h,
        k,
      )
      (ground arith)

require_auth-with_password :
    (crypto : Crypto) (now : ℕ) (salt password : Text) (r : Request) (s : State)
    → require_auth crypto now r (with_password crypto salt password s) ≡ require_auth crypto now r s
unfolding require_auth
require_auth-with_password crypto now salt password r s =
    rw (secret_of-with_password crypto salt password s) refl

-- Where bcrypt's hashes are not empty: after a change of the password that succeeds, a login sets a
-- cookie just for a password that is not empty and that bcrypt finds in the hash of the new one, at
-- whatever time it is made; whoever changes it has passed the check of requests, and the tokens that
-- were issued before stay good.
pub put_password-login :
    (crypto : Crypto) (now later : ℕ) (ip salt password attempt : Text) (r q : Request) (s : State)
    → ((salt password : Text) → is_truthy (some (crypto.hash_sync salt password)) ≡ true)
    → (put_password crypto now salt password r s).0.code ≡ 200
    → let t = (put_password crypto now salt password r s).1 in
      (is_some (login crypto later ip (some attempt) t).0.cookie
        ≡ (is_truthy (some attempt) && crypto.compare attempt (crypto.hash_sync salt password)))
      × (require_auth crypto later q t ≡ require_auth crypto later q s)
      × (require_auth crypto now r s ≡ none)
put_password-login crypto now later ip salt password attempt r q s hashes ok =
    let (secret, changed, passed) = put_password-accepted crypto now salt password r s ok in
    (
      ap (λ (t : State). is_some (login crypto later ip (some attempt) t).0.cookie) changed
          ∙ login-with_password crypto later ip salt password attempt s secret
              (hashes salt password),
      ap (require_auth crypto later q) changed
          ∙ require_auth-with_password crypto later salt password q s,
      passed,
    )
