-- ===== src/Auth/OwnSessions/Requests.antt =====
-- Requests on sessions in any order, of src/modules/auth/auth.service.ts.
use backend_softlogic.Base.{
  ℕ, String, ◌≡◌, ◌≢◌, Bool, false, Option, some, List, [], ◌∷◌, any, trimmed, arith,
}
use backend_softlogic.Base.Exec.{ok, err}
use backend_softlogic.Base.Keeps.{Keeps, Keeps-modify, keeps_rules}
use backend_softlogic.Auth.Store.{AuthResponse, LoginSession, AuthStore, AuthEnv, AuthUser}
use backend_softlogic.Base.Failure.{Failure, token_invalid}
use backend_softlogic.Auth.Sessions.{
  TouchOptions, holds, or_option, has_token, delete_session_by_token,
}
use backend_softlogic.Auth.Sessions.Tokens.{IsConsistent, IsGone}
use backend_softlogic.Auth.Sessions.Silence.{
  written_token, Keeps-delete_session, Keeps-touch, ended-IsGone,
}
use backend_softlogic.Auth.Login.{
  LoginContext, Drawn, can_login, end_session_if, refresh_options, renew_session, exchange_for,
  exchange_session, exchange_token, exchange_refresh_token,
}
use backend_softlogic.Auth.Login.Rotation.{exchange-IsGone, gone-refused}
use backend_softlogic.Auth.OwnSessions.{
  list_own_sessions, heartbeat_own_session, revoke_own_session, logout,
}

-- the token that an exchange writes
abbrev written_by : String → Drawn → Option String
written_by token drawn = or_option (trimmed (some drawn.refresh_token)) (trimmed (some token))

module _ (t : String) where
  Keeps-end_session_if :
      (test : Bool) (id : String) (now : ℕ) (e : Failure)
      → Keeps (IsGone t) (end_session_if test id now e)
  unfolding end_session_if
  Keeps-end_session_if test id now e = search (keeps_rules, Keeps-delete_session) depth 6

  Keeps-can_login : (id : String) → Keeps (IsGone t) (can_login id)
  unfolding can_login
  Keeps-can_login id = record { at = λ s h. h }

  module _ (verify : String → Option String) (ttl : ℕ) (env : AuthEnv) (token : String)
      (ctx : LoginContext) (now : ℕ) (drawn : Drawn)
      (silent : holds (written_by token drawn) t ≡ false) where
    Keeps-renew_session :
        (session : LoginSession) (user : AuthUser)
        → Keeps (IsGone t) (renew_session ttl token ctx now drawn session user)
    unfolding renew_session refresh_options
    Keeps-renew_session session user = search (keeps_rules, Keeps-touch, Keeps-can_login) depth 8

    Keeps-exchange_for :
        (session : LoginSession) (user_id : String)
        → Keeps (IsGone t) (exchange_for ttl token ctx now drawn session user_id)
    unfolding exchange_for
    Keeps-exchange_for session user_id = search (keeps_rules, Keeps-renew_session) depth 8

    Keeps-exchange_session :
        (session : LoginSession)
        → Keeps (IsGone t) (exchange_session verify ttl env token ctx now drawn session)
    unfolding exchange_session
    Keeps-exchange_session session =
        search (keeps_rules, Keeps-end_session_if, Keeps-exchange_for) depth 8

    Keeps-exchange_refresh_token :
        Keeps (IsGone t) (exchange_refresh_token verify ttl env token ctx now drawn)
    unfolding exchange_refresh_token exchange_token
    Keeps-exchange_refresh_token = search (keeps_rules, Keeps-exchange_session) depth 8

  Keeps-list :
      (user_id : String) (o : TouchOptions) (e now : ℕ) (fresh : String)
      → holds (written_token o) t ≡ false
      → Keeps (IsGone t) (list_own_sessions user_id o e now fresh)
  unfolding list_own_sessions
  Keeps-list user_id o e now fresh silent = search (keeps_rules, Keeps-touch) depth 8

  Keeps-heartbeat :
      (user_id : String) (o : TouchOptions) (e now : ℕ) (fresh : String)
      → holds (written_token o) t ≡ false
      → Keeps (IsGone t) (heartbeat_own_session user_id o e now fresh)
  unfolding heartbeat_own_session
  Keeps-heartbeat user_id o e now fresh silent = search (keeps_rules, Keeps-touch) depth 6

  Keeps-revoke :
      (user_id id : String) (token client : Option String) (now : ℕ)
      → Keeps (IsGone t) (revoke_own_session user_id id token client now)
  unfolding revoke_own_session
  Keeps-revoke user_id id token client now = search (keeps_rules, Keeps-delete_session) depth 9

  Keeps-logout : (token : String) (now : ℕ) → Keeps (IsGone t) (logout token now)
  unfolding logout delete_session_by_token
  Keeps-logout token now =
      Keeps-modify (delete_session_by_token token now)
        ((λ st z. ended-IsGone t (has_token token) now st.sessions z))

-- with the id for a new row, and the time at which a session that is written will end
pub data SessionRequest : Type 0 where
  heartbeat list : String → TouchOptions → ℕ → String → SessionRequest
  revoke : String → String → Option String → Option String → SessionRequest
  sign_out : String → SessionRequest
  exchange : String → LoginContext → Drawn → SessionRequest

-- A request that may write the token `t` into a session: a heartbeat or a list that sends it, or an
-- exchange that draws it.
unfoldable pub brings_back : String → SessionRequest → Bool
brings_back t (SessionRequest.heartbeat user_id o e fresh) = holds (written_token o) t
brings_back t (SessionRequest.list user_id o e fresh) = holds (written_token o) t
brings_back t (SessionRequest.revoke user_id id token client) = false
brings_back t (SessionRequest.sign_out token) = false
brings_back t (SessionRequest.exchange token ctx drawn) = holds (written_by token drawn) t

module _ (verify : String → Option String) (ttl : ℕ) (env : AuthEnv) where
  -- the tables after a request at a time, granted or refused
  pub after : AuthStore → ℕ × SessionRequest → AuthStore
  after st (now, SessionRequest.heartbeat user_id o e fresh) =
      (heartbeat_own_session user_id o e now fresh st).1
  after st (now, SessionRequest.list user_id o e fresh) =
      (list_own_sessions user_id o e now fresh st).1
  after st (now, SessionRequest.revoke user_id id token client) =
      (revoke_own_session user_id id token client now st).1
  after st (now, SessionRequest.sign_out token) = (logout token now st).1
  after st (now, SessionRequest.exchange token ctx drawn) =
      (exchange_refresh_token verify ttl env token ctx now drawn st).1

  abbrev pub after_all : AuthStore → List (ℕ × SessionRequest) → AuthStore
  after_all st [] = st
  after_all st (r ∷ rs) = after_all (after st r) rs

  after-IsGone :
      (t : String) (st : AuthStore) (now : ℕ) (r : SessionRequest)
      → brings_back t r ≡ false
      → IsGone t st
      → IsGone t (after st (now, r))
  unfolding after brings_back
  after-IsGone t st now (SessionRequest.heartbeat user_id o e fresh) silent h =
      (Keeps-heartbeat t user_id o e now fresh silent).at st h
  after-IsGone t st now (SessionRequest.list user_id o e fresh) silent h =
      (Keeps-list t user_id o e now fresh silent).at st h
  after-IsGone t st now (SessionRequest.revoke user_id id token client) silent h =
      (Keeps-revoke t user_id id token client now).at st h
  after-IsGone t st now (SessionRequest.sign_out token) silent h =
      (Keeps-logout t token now).at st h
  after-IsGone t st now (SessionRequest.exchange token ctx drawn) silent h =
      (Keeps-exchange_refresh_token t verify ttl env token ctx now drawn silent).at st h

  after_all-IsGone :
      (t : String) (rs : List (ℕ × SessionRequest)) (st : AuthStore)
      → any (λ (r : ℕ × SessionRequest). brings_back t r.1) rs ≡ false
      → IsGone t st
      → IsGone t (after_all st rs)
  after_all-IsGone t [] st silent h = h
  after_all-IsGone t ((now, r) ∷ rs) st silent h =
      after_all-IsGone t rs (after st (now, r)) (ground arith)
        (after-IsGone t st now r (ground arith) h)

-- A refresh token that was exchanged for another one is refused from then on, with `tokenInvalid` and
-- with no write, after any heartbeats, lists, revocations, logouts and exchanges, granted or refused,
-- of which no heartbeat or list sends it and no exchange draws it; where the ids and the tokens of
-- sessions were unique and both tokens are texts without white space around them.
pub exchange-replay :
    (verify : String → Option String) (ttl : ℕ) (env env' : AuthEnv) (token : String)
    (ctx : LoginContext) (now : ℕ) (drawn : Drawn) (st st' : AuthStore) (r : AuthResponse)
    → IsConsistent st
    → trimmed (some token) ≡ some token
    → trimmed (some drawn.refresh_token) ≡ some drawn.refresh_token
    → drawn.refresh_token ≢ token
    → exchange_refresh_token verify ttl env token ctx now drawn st ≡ (ok r, st')
    → (rs : List (ℕ × SessionRequest))
    → any (λ (q : ℕ × SessionRequest). brings_back token q.1) rs ≡ false
    → (ctx' : LoginContext) (now' : ℕ) (drawn' : Drawn)
    → let later = after_all verify ttl env' st' rs in
      exchange_refresh_token verify ttl env' token ctx' now' drawn' later
      ≡ (err token_invalid, later)
exchange-replay verify ttl env env' token ctx now drawn st st' r u own new other h rs silent ctx'
      now' drawn' =
    gone-refused verify ttl token (after_all verify ttl env' st' rs)
      (after_all-IsGone verify ttl env' token rs st' silent
        (exchange-IsGone verify ttl env token ctx now drawn st st' r u own new other h))
      env' ctx' now' drawn'
