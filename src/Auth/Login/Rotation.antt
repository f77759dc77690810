-- ===== src/Auth/Login/Rotation.antt =====
-- A refresh token that was exchanged, `refreshToken` of src/modules/auth/auth.service.ts.
use backend_softlogic.Base.{
  ℕ, ◌+◌, String, ◌≡◌, ◌≢◌, refl, true, false, not, ◌&&◌, Option, some, ltb, is_some, arith, inl,
  inr, Bool-cases, Option-cases, first-none, trim, trimmed, ◌==◌,
}
use backend_softlogic.Base.Exec.{ok, err, Result-cases}
use backend_softlogic.Base.Exec.Granted.{run-cases}
use backend_softlogic.Base.Failure.{Failure, token_invalid, token_expired}
use backend_softlogic.Licensing.Admission.{assert_organization_can_login}
use backend_softlogic.Auth.Store.{
  AuthResponse, AuthUser, LoginSession, AuthStore, AuthEnv, licensing_of, find_user_context_by_id,
  find_user_by_id, should_relax_auth_limits,
}
use backend_softlogic.Auth.Sessions.{
  find_session_by_token, touch_own_session, delete_session, has_token,
}
use backend_softlogic.Auth.Sessions.Tokens.{IsConsistent, IsGone, touch_own_session-IsGone}
use backend_softlogic.Auth.Login.{
  LoginContext, Drawn, refresh_options, renew_session, exchange_for, exchange_session,
  exchange_token, end_session_if, can_login, decoded_user, exchange_refresh_token,
  refresh_token_failure, is_auth_error,
}

-- A token that no session holds is refused.
pub gone-refused :
    (verify : String → Option String) (ttl : ℕ) (token : String) (st : AuthStore)
    → IsGone token st
    → (env : AuthEnv) (ctx : LoginContext) (now : ℕ) (drawn : Drawn)
    → exchange_refresh_token verify ttl env token ctx now drawn st ≡ (err token_invalid, st)
unfolding exchange_refresh_token exchange_token find_session_by_token refresh_token_failure
    is_auth_error
gone-refused verify ttl token st gone env ctx now drawn = elim (Bool-cases (trim token == "")) [
  | inl e ↦ ground (arith, e)
  | inr e ↦ rw (e, first-none (has_token token) st.sessions gone) refl
]

module _ (verify : String → Option String) (ttl : ℕ) (env : AuthEnv) (token : String)
    (ctx : LoginContext) (now : ℕ) (drawn : Drawn) where
  -- The session has been written for some user, as the last write.
  abbrev Renewed : LoginSession → AuthStore → AuthStore → Type 0
  Renewed session st st' =
      (user_id : String) × (written : LoginSession) × (touch_own_session user_id
          (refresh_options token ctx drawn session) (now + ttl) now drawn.session_id st
        ≡ (ok written, st'))

  renew_session-Renewed :
      (session : LoginSession) (user : AuthUser) (st st' : AuthStore) (r : AuthResponse)
      → renew_session ttl token ctx now drawn session user st ≡ (ok r, st')
      → Renewed session st st'
  unfolding renew_session can_login
  renew_session-Renewed session user st st' r h =
      elim (Result-cases (assert_organization_can_login user.licensed.row.id (licensing_of st))) [
        | inr (e, a) ↦ absurd (ground (arith, a))
        | inl (u, a) ↦
            elim (run-cases (
              touch_own_session user.licensed.row.id (refresh_options token ctx drawn session)
                (now + ttl) now drawn.session_id st)) [
                  | inr (e, s, t) ↦ absurd (ground (arith, a, t))
                  | inl (w, s, t) ↦
                      elim (Option-cases (find_user_context_by_id user.licensed.row.id s)) [
                        | inl n ↦ absurd (ground (arith, a, t, n))
                        | inr (v, n) ↦
                            let same : s ≡ st' = ground (arith, a, t, n) in
                            (user.licensed.row.id, w, cc)
                      ]
                ]
      ]

  exchange_for-Renewed :
      (session : LoginSession) (user_id : String) (st st' : AuthStore) (r : AuthResponse)
      → exchange_for ttl token ctx now drawn session user_id st ≡ (ok r, st')
      → Renewed session st st'
  unfolding exchange_for
  exchange_for-Renewed session user_id st st' r h =
      elim (Option-cases (find_user_by_id user_id st)) [
        | inl n ↦ absurd (ground (arith, n))
        | inr (user, n) ↦ elim (Bool-cases user.licensed.is_active) [
          | inl a ↦ renew_session-Renewed session user st st' r (ground (arith, n, a))
          | inr a ↦ absurd (ground (arith, n, a))
        ]
      ]

  ended :
      (id : String) (e : Failure) (st : AuthStore)
      → (f : Failure) × (s : AuthStore) × (end_session_if true id now e st ≡ (err f, s))
  unfolding end_session_if
  ended id e st = elim (run-cases (delete_session id now st)) [
    | inl (v, t, d) ↦ (e, t, ground (arith, d))
    | inr (f, t, d) ↦ (f, t, ground (arith, d))
  ]

  not_ended :
      (id : String) (e : Failure) (st : AuthStore) → end_session_if false id now e st ≡ (ok tt, st)
  unfolding end_session_if
  not_ended id e st = refl

  exchange_session-Renewed :
      (session : LoginSession) (st st' : AuthStore) (r : AuthResponse)
      → exchange_session verify ttl env token ctx now drawn session st ≡ (ok r, st')
      → Renewed session st st'
  unfolding exchange_session
  exchange_session-Renewed session st st' r h =
      let kept = not_ended session.id token_invalid st in
      let current = not_ended session.id token_expired st in
      elim (Bool-cases (is_some session.revoked_at)) [
        | inl v ↦ let (f, s, q) = ended session.id token_invalid st in absurd (ground (arith, v, q))
        | inr v ↦ elim (Result-cases (decoded_user verify env token session.user_id)) [
          | inr (e, d) ↦ absurd (ground (arith, v, d, kept))
          | inl (user_id, d) ↦
              elim (Bool-cases (not (should_relax_auth_limits env) && ltb session.expires_at now)) [
                | inl x ↦
                    let (f, s, q) = ended session.id token_expired st in
                    absurd (ground (arith, v, d, x, kept, q))
                | inr x ↦
                    exchange_for-Renewed session user_id st st' r
                      (ground (arith, v, d, x, kept, current))
              ]
        ]
      ]

  exchange_token-Renewed :
      (st st' : AuthStore) (r : AuthResponse)
      → exchange_token verify ttl env token ctx now drawn st ≡ (ok r, st')
      → (session : LoginSession) × (find_session_by_token token st ≡ some session)
        × Renewed session st st'
  unfolding exchange_token
  exchange_token-Renewed st st' r h = elim (Option-cases (find_session_by_token token st)) [
    | inl n ↦ absurd (ground (arith, n))
    | inr (session, n) ↦ (session, n, exchange_session-Renewed session st st' r (ground (arith, n)))
  ]

  exchange_refresh_token-ok :
      (st st' : AuthStore) (r : AuthResponse)
      → exchange_refresh_token verify ttl env token ctx now drawn st ≡ (ok r, st')
      → exchange_token verify ttl env token ctx now drawn st ≡ (ok r, st')
  unfolding exchange_refresh_token
  exchange_refresh_token-ok st st' r h =
      elim (run-cases (exchange_token verify ttl env token ctx now drawn st)) [
        | inl (a, s, e) ↦ ground (arith, e)
        | inr (f, s, e) ↦ absurd (ground (arith, e))
      ]

  -- The exchange leaves no session with the old token.
  pub exchange-IsGone :
      (st st' : AuthStore) (r : AuthResponse)
      → IsConsistent st
      → trimmed (some token) ≡ some token
      → trimmed (some drawn.refresh_token) ≡ some drawn.refresh_token
      → drawn.refresh_token ≢ token
      → exchange_refresh_token verify ttl env token ctx now drawn st ≡ (ok r, st')
      → IsGone token st'
  unfolding refresh_options
  exchange-IsGone st st' r u own new other h =
      let (session, found, renewed) =
        exchange_token-Renewed st st' r (exchange_refresh_token-ok st st' r h) in
      let (user_id, w, touch) = renewed in
      touch_own_session-IsGone user_id (refresh_options token ctx drawn session) (now + ttl) now
        drawn.session_id token drawn.refresh_token other new session st st' w u own found touch
