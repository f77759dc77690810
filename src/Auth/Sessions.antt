-- ===== src/Auth/Sessions.antt =====
-- src/modules/auth/auth.repository.ts and auth.service.ts: the sessions of a login; and the check of
-- src/shared/middleware/auth.middleware.ts. The time of a request, the id of a new row and the new
-- refresh token are arguments.
pub mod Tokens
pub mod Silence
use backend_softlogic.Base.{
  ℕ, String, Bool, false, not, ◌&&◌, ◌||◌, Option, none, some, List, [], ◌∷◌, ◌++◌, ◌==◌, any,
  first, is_some, trim, trimmed, if◌then◌else◌,
}
use backend_softlogic.Base.Exec.{Exec, ok, err, pure, gets, raise_if, ◌>>=◌, ◌>>◌}
use backend_softlogic.Base.Failure.{token_invalid, record_not_found, unique_violation}
use backend_softlogic.Base.Table.{find, update, update_where}
use backend_softlogic.Auth.Store.{LoginSession, login_session_row, AuthStore}

-- `AuthSessionTouchOptions`
pub record TouchOptions : Type 0 where
  pub client_session_id : Option String
  pub current_refresh_token : Option String
  pub next_refresh_token : Option String
  pub device_info : Option (List (String × String))
  pub ip_address : Option String

-- `a ?? b` on values that may be null
abbrev pub or_option {ℓ} : {A : Type ℓ} → Option A → Option A → Option A
or_option none b = b
or_option (some a) b = some a

-- the text, if there is one
abbrev pub holds : Option String → String → Bool
holds none t = false
holds (some s) t = s == t

abbrev pub has_token : String → LoginSession → Bool
has_token t s = holds s.refresh_token t

abbrev pub shares : Option String → Option String → Bool
shares none b = false
shares (some a) b = holds b a

-- the unique indexes on `refreshToken` and on `userId` with `clientSessionId`
abbrev pub clashes : LoginSession → LoginSession → Bool
clashes a b =
    shares a.refresh_token b.refresh_token
    || ((a.user_id == b.user_id) && shares a.client_session_id b.client_session_id)

unfoldable pub find_session_by_token : String → AuthStore → Option LoginSession
find_session_by_token t st = if trim t == "" then none else first (has_token t) st.sessions

unfoldable pub find_user_session_by_client_session_id :
    String → String → AuthStore → Option LoginSession
find_user_session_by_client_session_id user_id client_session_id st =
    first
      (λ (s : LoginSession). (s.user_id == user_id) && holds s.client_session_id client_session_id)
      st.sessions

-- the row without a token, revoked
unfoldable pub revoked : ℕ → LoginSession → LoginSession
revoked now s = record s { refresh_token = none; revoked_at = some now }

abbrev pub update_session : String → (LoginSession → LoginSession) → Exec AuthStore LoginSession
update_session id f st = elim (find id st.sessions) [
  | none ↦ (err record_not_found, st)
  | some s ↦
      if any (λ (t : LoginSession). not (t.id == s.id) && clashes (f s) t) st.sessions
      then (err unique_violation, st)
      else (ok (f s), record st { sessions = update id f st.sessions })
]

abbrev pub create_session : LoginSession → Exec AuthStore LoginSession
create_session s st =
    if any (λ (t : LoginSession). (t.id == s.id) || clashes s t) st.sessions
    then (err unique_violation, st)
    else (ok s, record st { sessions = st.sessions ++ s ∷ [] })

abbrev pub delete_session : String → ℕ → Exec AuthStore LoginSession
delete_session id now = update_session id (revoked now)

unfoldable pub delete_session_by_token : String → ℕ → AuthStore → AuthStore
unfolding revoked
delete_session_by_token t now st = record st {
  sessions = update_where (has_token t) (revoked now) st.sessions;
}

unfoldable pub is_live_of : String → LoginSession → Bool
is_live_of user_id s = (s.user_id == user_id) && not (is_some s.revoked_at)

unfoldable pub delete_all_user_sessions : String → ℕ → AuthStore → AuthStore
delete_all_user_sessions user_id now st = record st {
  sessions = update_where (is_live_of user_id) (revoked now) st.sessions;
}

unfoldable pub delete_other_user_sessions : String → String → ℕ → AuthStore → AuthStore
delete_other_user_sessions user_id kept now st = record st {
  sessions =
      update_where (λ s. is_live_of user_id s && not (has_token kept s)) (revoked now) st.sessions;
}

unfoldable pub find_token : Option String → AuthStore → Option LoginSession
find_token none st = none
find_token (some t) st = find_session_by_token t st

unfoldable pub find_client : String → Option String → AuthStore → Option LoginSession
find_client user_id none st = none
find_client user_id (some c) st = find_user_session_by_client_session_id user_id c st

abbrev pub is_of_other : String → Option LoginSession → Bool
is_of_other user_id none = false
is_of_other user_id (some s) = not (s.user_id == user_id)

abbrev pub is_revoked : Option LoginSession → Bool
is_revoked none = false
is_revoked (some s) = is_some s.revoked_at

-- The session of the token goes where another one has the client's id.
abbrev pub drop_token_session : Option LoginSession → Option LoginSession → ℕ → Exec AuthStore Unit
drop_token_session (some t) (some c) now =
    if t.id == c.id then pure tt else (delete_session t.id now >> pure tt)
drop_token_session _ _ now = pure tt

filled :
    Option (List (String × String))
    → Option (List (String × String))
    → Option (List (String × String))
filled none old = old
filled (some []) old = old
filled (some (x ∷ xs)) old = some (x ∷ xs)

non_empty : Option String → Option String → Option String
non_empty none old = old
non_empty (some s) old = if s == "" then old else some s

-- the written columns of `touchOwnSession`
unfoldable pub touched : TouchOptions → ℕ → ℕ → LoginSession → LoginSession
unfolding filled non_empty
touched o expires_at now s = record s {
  expires_at = expires_at;
  last_seen_at = some now;
  revoked_at = none;
  refresh_token =
      or_option (or_option (trimmed o.next_refresh_token) (trimmed o.current_refresh_token))
        s.refresh_token;
  client_session_id = or_option (trimmed o.client_session_id) s.client_session_id;
  device_info = filled o.device_info s.device_info;
  ip_address = non_empty o.ip_address s.ip_address;
}

unfoldable pub new_session : String → TouchOptions → ℕ → ℕ → String → LoginSession
new_session user_id o expires_at now fresh = record {
  id = fresh;
  user_id = user_id;
  refresh_token = or_option (trimmed o.next_refresh_token) (trimmed o.current_refresh_token);
  client_session_id = trimmed o.client_session_id;
  device_info = o.device_info;
  ip_address = o.ip_address;
  expires_at = expires_at;
  last_seen_at = some now;
  revoked_at = none;
  created_at = now;
}

unfoldable pub write_session :
    String → TouchOptions → ℕ → ℕ → String → Option LoginSession → Exec AuthStore LoginSession
write_session user_id o expires_at now fresh none =
    create_session (new_session user_id o expires_at now fresh)
write_session user_id o expires_at now fresh (some s) =
    update_session s.id (touched o expires_at now)

-- of the session that has the token and of the one that has the client's id
unfoldable pub touch_sessions :
    String
    → TouchOptions
    → ℕ
    → ℕ
    → String
    → Option LoginSession
    → Option LoginSession
    → Exec AuthStore LoginSession
touch_sessions user_id o expires_at now fresh token_session client_session = do
  raise_if (is_of_other user_id token_session) token_invalid
  raise_if (is_of_other user_id client_session) token_invalid
  raise_if (is_revoked (or_option client_session token_session) && is_some token_session)
      token_invalid
  drop_token_session token_session client_session now
  write_session user_id o expires_at now fresh (or_option client_session token_session)

unfoldable pub touch_own_session :
    String → TouchOptions → ℕ → ℕ → String → Exec AuthStore LoginSession
touch_own_session user_id o expires_at now fresh = do
  raise_if
      (not (is_some (trimmed o.current_refresh_token))
        && not (is_some (trimmed o.client_session_id))
        && not (is_some (trimmed o.next_refresh_token)))
      token_invalid
  token_session ← gets (find_token (trimmed o.current_refresh_token))
  client_session ← gets (find_client user_id (trimmed o.client_session_id))
  touch_sessions user_id o expires_at now fresh token_session client_session
