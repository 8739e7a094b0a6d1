-- ===== src/Auth/Sessions.antt =====
-- How long a session lasts (controller/src/api/routes/auth.ts, controller/src/api/middleware/auth.ts).
use watchwarden.Base.{
  ℕ, ◌+◌, ◌≡◌, refl, sym, ap, ◌∙◌, Bool, true, false, Option, none, some, List, [], ◌∷◌, arith,
  Text, text, ===_refl, ltb, if◌then◌else◌, is_truthy, is_some, if_split,
}
use watchwarden.Auth.{
  secret_of, has_secret, Crypto, Request, Reply, State, extract_token, is_admin, require_auth,
  issue, refresh, login,
}

-- What `jwt.verify` does with a token of `jwt.sign`: it gives its role for two hours, and throws then; no
-- token is empty.
abbrev pub VerifiesSigned : Crypto → Type 0
VerifiesSigned crypto =
    ((role secret : Text) (signed now : ℕ)
      → crypto.verify (crypto.sign role secret signed) secret now
        ≡ (if ltb now (signed + 7200) then some (some role) else none))
    × ((role secret : Text) (signed : ℕ) → is_truthy (some (crypto.sign role secret signed)) ≡ true)

-- A request with a cookie.
abbrev pub with_cookie : Option Text → Request
with_cookie cookie = record { cookie = cookie; authorization = none }

-- A session's last cookie, after it was refreshed at some times, each time by the cookie that the reply
-- before it set.
unfoldable pub refreshed : Crypto → List ℕ → State → Reply → Reply
refreshed crypto [] s r = r
refreshed crypto (t ∷ ts) s r = refreshed crypto ts s (refresh crypto t (with_cookie r.cookie) s)

-- Whether each time is less than two hours after the one before it.
abbrev pub are_close : ℕ → List ℕ → Bool
are_close start [] = true
are_close start (t ∷ ts) = if ltb t (start + 7200) then are_close t ts else false

-- The last of some times.
abbrev pub last_of : ℕ → List ℕ → ℕ
last_of start [] = start
last_of start (t ∷ ts) = last_of t ts

-- Whether a request goes on.
abbrev pub passes : Option Reply → Bool
passes none = true
passes (some refusal) = false

module _ (crypto : Crypto) (v : VerifiesSigned crypto) where
  token-is_admin :
      (secret : Text) (signed now : ℕ)
      → is_admin (crypto.verify (crypto.sign (text "admin") secret signed) secret now)
        ≡ ltb now (signed + 7200)
  unfolding is_admin
  token-is_admin secret signed now =
      ap is_admin (v.0 (text "admin") secret signed now)
      ∙ if_split (λ o. is_admin o ≡ ltb now (signed + 7200)) (ltb now (signed + 7200))
          (λ h. ===_refl (text "admin") ∙ sym h) (λ h. sym h)

  extract_token-issued :
      (secret : Text) (signed : ℕ)
      → extract_token (with_cookie (issue crypto signed secret).cookie)
        ≡ some (crypto.sign (text "admin") secret signed)
  unfolding extract_token issue
  extract_token-issued secret signed = rw (v.1 (text "admin") secret signed) refl

  refresh-issued :
      (s : State) (signed now : ℕ)
      → has_secret s ≡ true
      → ltb now (signed + 7200) ≡ true
      → refresh crypto now (with_cookie (issue crypto signed (secret_of s)).cookie) s
        ≡ issue crypto now (secret_of s)
  unfolding refresh
  refresh-issued s signed now h fresh =
      rw
        (
          extract_token-issued (secret_of s) signed,
          v.1 (text "admin") (secret_of s) signed,
          h,
          token-is_admin (secret_of s) signed now,
          fresh,
        )
        refl

  require_auth-issued :
      (s : State) (signed now : ℕ)
      → has_secret s ≡ true
      → passes (require_auth crypto now (with_cookie (issue crypto signed (secret_of s)).cookie) s)
        ≡ ltb now (signed + 7200)
  unfolding require_auth
  require_auth-issued s signed now h =
      rw
        (
          extract_token-issued (secret_of s) signed,
          v.1 (text "admin") (secret_of s) signed,
          h,
          token-is_admin (secret_of s) signed now,
        )
        (if_split (λ o. passes o ≡ ltb now (signed + 7200)) (ltb now (signed + 7200)) (λ e. sym e)
          (λ e. sym e))

  refreshed-issued :
      (ts : List ℕ) (s : State) (signed : ℕ)
      → has_secret s ≡ true
      → are_close signed ts ≡ true
      → refreshed crypto ts s (issue crypto signed (secret_of s))
        ≡ issue crypto (last_of signed ts) (secret_of s)
  unfolding refreshed
  refreshed-issued [] s signed h close = refl
  refreshed-issued (t ∷ ts) s signed h close =
      ap (refreshed crypto ts s) (refresh-issued s signed t h (ground arith))
      ∙ refreshed-issued ts s t h (ground arith)

login-issued :
    (crypto : Crypto) (now : ℕ) (ip : Text) (password : Option Text) (s : State)
    → is_some (login crypto now ip password s).0.cookie ≡ true
    → (has_secret s ≡ true) × ((login crypto now ip password s).0 ≡ issue crypto now (secret_of s))
unfolding login issue
login-issued crypto now ip password s h = ground arith

-- With tokens that are verified for two hours: after a login that sets a cookie, and any number of
-- refreshes, each less than two hours after the one before it, a request with the last cookie goes on
-- just for the next two hours.
pub login-refreshed :
    (crypto : Crypto) (signed : ℕ) (ip : Text) (password : Option Text) (ts : List ℕ) (now : ℕ)
    (s : State)
    → VerifiesSigned crypto
    → is_some (login crypto signed ip password s).0.cookie ≡ true
    → are_close signed ts ≡ true
    → let r = refreshed crypto ts s (login crypto signed ip password s).0 in
      passes (require_auth crypto now (with_cookie r.cookie) s) ≡ ltb now (last_of signed ts + 7200)
login-refreshed crypto signed ip password ts now s v ok close =
    let (secret, issued) = login-issued crypto signed ip password s ok in
    let e =
      ap (refreshed crypto ts s) issued ∙ refreshed-issued crypto v ts s signed secret close in
    ap (λ (r : Reply). passes (require_auth crypto now (with_cookie r.cookie) s)) e
    ∙ require_auth-issued crypto v s (last_of signed ts) now secret

-- A refresh sets a cookie just where the check of the same request, at the same time, lets it go on, and
-- refuses it with the same status otherwise.
pub refresh-require_auth :
    (crypto : Crypto) (now : ℕ) (r : Request) (s : State)
    → require_auth crypto now r s ≡ (
        let reply = refresh crypto now r s in
        if is_some reply.cookie then none else some (record { code = reply.code; cookie = none }))
unfolding require_auth refresh issue
refresh-require_auth crypto now r s = ground arith
