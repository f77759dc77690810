-- ===== src/Auth/OwnSessions.antt =====
-- src/modules/auth/auth.service.ts: what a user does with the own sessions, the end of a session, and
-- the check of src/shared/middleware/auth.middleware.ts that a session has not ended.
pub mod Revival
pub mod Requests
use backend_softlogic.Base.{
  ℕ, String, Bool, false, not, ◌&&◌, ◌||◌, Option, none, some, List, [], ◌∷◌, first, keep, map, ltb,
  leb, is_some, ◌==◌, trimmed, if◌then◌else◌,
}
use backend_softlogic.Base.Exec.{
  Exec, Result, ok, err, pure, gets, or_raise, raise_if, modify, try_catch, ◌>>=◌, ◌>>◌,
}
use backend_softlogic.Base.Failure.{token_invalid, login_session_not_found, current_login_session}
use backend_softlogic.Auth.Store.{LoginSession, AuthStore}
use backend_softlogic.Auth.Sessions.{
  TouchOptions, holds, find_user_session_by_client_session_id, revoked, update_session,
  delete_session_by_token, touch_own_session,
}

-- newest first
insert_newest : LoginSession → List LoginSession → List LoginSession
insert_newest s [] = s ∷ []
insert_newest s (t ∷ ts) =
    let rest = insert_newest s ts in if ltb s.created_at t.created_at then t ∷ rest else s ∷ t ∷ ts

abbrev sort_newest : List LoginSession → List LoginSession
sort_newest [] = []
sort_newest (s ∷ ss) = insert_newest s (sort_newest ss)

unfoldable pub list_user_sessions : String → ℕ → AuthStore → List LoginSession
unfolding insert_newest
list_user_sessions user_id now st = sort_newest (
    keep
      (λ (s : LoginSession).
        (s.user_id == user_id) && not (is_some s.revoked_at) && ltb now s.expires_at)
      st.sessions)

abbrev held : Option String → Option String → Bool
held none t = false
held (some s) t = holds t s

-- the session is the one of the request
unfoldable pub is_current : Option String → Option String → LoginSession → Bool
is_current token client s = held (trimmed token) s.refresh_token || held client s.client_session_id

-- the rows, with `isCurrent`
unfoldable pub list_own_sessions :
    String → TouchOptions → ℕ → ℕ → String → Exec AuthStore (List (LoginSession × Bool))
unfolding list_user_sessions is_current
list_own_sessions user_id o expires_at now fresh = do
  ignored ← try_catch (touch_own_session user_id o expires_at now fresh >> pure tt) (λ e. pure tt)
  sessions ← gets (list_user_sessions user_id now)
  pure (map (λ s. (s, is_current o.current_refresh_token o.client_session_id s)) sessions)

unfoldable pub heartbeat_own_session :
    String → TouchOptions → ℕ → ℕ → String → Exec AuthStore (String × Option ℕ)
heartbeat_own_session user_id o expires_at now fresh = do
  session ← touch_own_session user_id o expires_at now fresh
  pure (session.id, session.last_seen_at)

unfoldable pub find_user_session_by_id : String → String → AuthStore → Option LoginSession
find_user_session_by_id user_id id st =
    first
      (λ (s : LoginSession). (s.id == id) && (s.user_id == user_id) && not (is_some s.revoked_at))
      st.sessions

unfoldable pub revoke_own_session :
    String → String → Option String → Option String → ℕ → Exec AuthStore Unit
unfolding find_user_session_by_id is_current
revoke_own_session user_id id token client now = do
  found ← gets (find_user_session_by_id user_id id)
  session ← or_raise found login_session_not_found
  raise_if (is_current token client session) current_login_session
  update_session session.id (revoked now) >> pure tt

unfoldable pub logout : String → ℕ → Exec AuthStore Unit
logout token now = modify (delete_session_by_token token now)

active_session : Bool → ℕ → Option LoginSession → Result (Unit {0})
active_session allow_missing now none = if allow_missing then ok tt else err token_invalid
active_session allow_missing now (some s) =
    if is_some s.revoked_at || leb s.expires_at now then err token_invalid else ok tt

-- of the user and the client's id of a request
unfoldable pub assert_client_session_active :
    String → Option String → Bool → ℕ → AuthStore → Result (Unit {0})
unfolding active_session
assert_client_session_active user_id none allow_missing now st = ok tt
assert_client_session_active user_id (some c) allow_missing now st =
    active_session allow_missing now (find_user_session_by_client_session_id user_id c st)
