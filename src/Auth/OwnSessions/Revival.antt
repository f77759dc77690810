-- ===== src/Auth/OwnSessions/Revival.antt =====
-- A refresh token after a logout, `logout` and `heartbeatOwnSession` of
-- src/modules/auth/auth.service.ts.
use backend_softlogic.Base.{
  ℕ, String, ◌≡◌, refl, false, ◌||◌, ◌==◌, Option, none, some, List, [], ◌∷◌, ◌++◌, any, count,
  first-none, trim, trimmed, trimmed-none, arith, inl, inr, Bool-cases, eq_iff,
}
use backend_softlogic.Base.Exec.{ok, err}
use backend_softlogic.Base.Failure.{token_invalid}
use backend_softlogic.Base.Table.{find, update_where}
use backend_softlogic.Base.Table.Queries.{count-update_where_none, first-append_one}
use backend_softlogic.Auth.Store.{LoginSession, login_session_row, AuthStore, AuthEnv}
use backend_softlogic.Auth.Sessions.{
  TouchOptions, has_token, clashes, find_session_by_token, find_token, find_client, revoked,
  new_session, write_session, touch_sessions, touch_own_session, delete_session_by_token,
}
use backend_softlogic.Auth.Sessions.Tokens.{IsGone}
use backend_softlogic.Auth.Login.{LoginContext, Drawn, exchange_refresh_token}
use backend_softlogic.Auth.Login.Rotation.{gone-refused}
use backend_softlogic.Auth.OwnSessions.{logout, heartbeat_own_session}

module _ (token : String) (at : ℕ) (st : AuthStore) where
  logout-IsGone : IsGone token (logout token at st).1
  unfolding logout delete_session_by_token revoked
  logout-IsGone =
      count-update_where_none (has_token token) (has_token token) (revoked at) st.sessions
        (λ a. elim (Bool-cases (has_token token a)) [ inl e ↦ rw e refl | inr e ↦ rw e e ])

  -- After a logout, its refresh token is refused with `tokenInvalid` and no write, whatever sessions
  -- held it before.
  pub logout-refused :
      (verify : String → Option String) (ttl : ℕ) (env : AuthEnv) (ctx : LoginContext) (now : ℕ)
      (drawn : Drawn)
      → exchange_refresh_token verify ttl env token ctx now drawn (logout token at st).1
        ≡ (err token_invalid, (logout token at st).1)
  logout-refused verify ttl env ctx now drawn =
      gone-refused verify ttl token (logout token at st).1 logout-IsGone env ctx now drawn

-- a heartbeat that sends the refresh token alone
abbrev pub token_alone : String → TouchOptions
token_alone token = record {
  client_session_id = none;
  current_refresh_token = some token;
  next_refresh_token = none;
  device_info = none;
  ip_address = none;
}

module _ (token user_id fresh : String) (expires_at now : ℕ) where
  abbrev started : LoginSession
  started = new_session user_id (token_alone token) expires_at now fresh

  find-revoked :
      (at : ℕ) (ss : List LoginSession)
      → find fresh ss ≡ none
      → find fresh (update_where (has_token token) (revoked at) ss) ≡ none
  unfolding find revoked
  find-revoked at [] h = refl
  find-revoked at (s ∷ ss) h = elim (Bool-cases (has_token token s)) [
    | inl e ↦ rw e (ground (arith, find-revoked at ss (ground arith)))
    | inr e ↦ rw e (ground (arith, find-revoked at ss (ground arith)))
  ]

  no_clash :
      (n : LoginSession)
      → n.refresh_token ≡ some token
      → n.client_session_id ≡ none
      → (ss : List LoginSession) → find n.id ss ≡ none
      → count (has_token token) ss ≡ 0
      → any (λ (s : LoginSession). (s.id == n.id) || clashes n s) ss ≡ false
  unfolding find
  no_clash n t c [] f z = refl
  no_clash n t c (s ∷ ss) f z = elim (Bool-cases (s.id == n.id)) [
    | inl e ↦ absurd (ground (arith, e))
    | inr e ↦ elim (Bool-cases (has_token token s)) [
      | inl x ↦ absurd (ground (arith, x))
      | inr x ↦
          rw (e, t, c)
            (ground (arith, x, no_clash n t c ss (ground (arith, e)) (ground (arith, x))))
    ]
  ]

  -- the session that a heartbeat starts
  pub record IsRevived (st' : AuthStore) : Type 0 where
    pub session : LoginSession
    pub found : find_session_by_token token st' ≡ some session
    pub owner : session.user_id ≡ user_id
    pub live : session.revoked_at ≡ none
    pub lasts : session.expires_at ≡ expires_at

  started_token : trimmed (some token) ≡ some token → started.refresh_token ≡ some token
  unfolding new_session
  started_token own = rw (trimmed-none, own) refl

  started_id : started.id ≡ fresh
  unfolding new_session
  started_id = refl

  started_client : started.client_session_id ≡ none
  unfolding new_session
  started_client = trimmed-none

  not_found : (st : AuthStore) → IsGone token st → find_session_by_token token st ≡ none
  unfolding find_session_by_token
  not_found st z = rw (first-none (has_token token) st.sessions z) (ground arith)

  touch_starts :
      (st : AuthStore)
      → trimmed (some token) ≡ some token
      → find fresh st.sessions ≡ none
      → IsGone token st
      → touch_own_session user_id (token_alone token) expires_at now fresh st
        ≡ (ok started, record st { sessions = st.sessions ++ started ∷ [] })
  unfolding touch_own_session touch_sessions find_token find_client write_session
  touch_starts st own f z =
      let clash =
        no_clash started (started_token own) started_client st.sessions (rw started_id f) z in
      rw (own, trimmed-none) (rw (not_found st z) (rw clash refl))

  -- A heartbeat that sends the refresh token of a session that has been signed out, and no client id,
  -- starts a session with that token again: a live one of the user, which the token finds from then
  -- on. The id for the new row is fresh, and the token has no white space around it.
  pub logout-heartbeat :
      (at : ℕ) (st : AuthStore)
      → trimmed (some token) ≡ some token
      → (trim token == "") ≡ false
      → find fresh st.sessions ≡ none
      → IsRevived
          (heartbeat_own_session user_id
            (token_alone token)
            expires_at
            now
            fresh
            (logout token at st).1).1
  unfolding heartbeat_own_session logout delete_session_by_token find_session_by_token new_session
  logout-heartbeat at st own filled f =
      let out = (logout token at st).1 in
      let z = logout-IsGone token at st in
      let step = touch_starts out own (find-revoked at st.sessions f) z in
      rw step (record {
        session = started;
        found = rw filled (
            first-append_one (has_token token) started out.sessions
              (first-none (has_token token) out.sessions z)
              (rw (started_token own) (ground (arith, eq_iff token token))));
        owner = refl;
        live = refl;
        lasts = refl;
      })
