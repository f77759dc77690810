-- ===== src/Auth/Login.antt =====
-- src/modules/auth/auth.service.ts: the login by a password and the exchange of a refresh token.
-- `compare` is that of bcrypt, `lower` is `toLowerCase`, `ttl` is what `refreshSessionTtlMs` reads of
-- the settings, and `verify` gives the user of a refresh token that `jsonwebtoken` accepts.
pub mod Rotation
use backend_softlogic.Base.{
  ℕ, ◌+◌, String, Bool, true, false, not, ◌&&◌, Option, none, some, List, [], ◌∷◌, ltb, is_some,
  if◌then◌else◌,
}
use backend_softlogic.Base.Exec.{
  Exec, Result, ok, err, pure, raise, lift, gets, or_raise, raise_if, try_catch, ◌>>=◌, ◌>>◌,
}
use backend_softlogic.Base.Failure.{
  Failure, invalid_credentials, token_expired, token_invalid, jwt_error, unauthorized,
  account_suspended, otp_expired, otp_invalid, otp_max_attempts, rate_limited,
}
use backend_softlogic.Access.Roles.{UserRole, is_admin_role}
use backend_softlogic.Licensing.Store.{is_licensed_role}
use backend_softlogic.Licensing.Admission.{assert_organization_can_login}
use backend_softlogic.Auth.Store.{
  AuthResponse, AuthUser, LoginSession, AuthStore, AuthEnv, licensing_of, should_relax_auth_limits,
  find_user_by_email, find_user_by_id, find_user_context_by_id, no_active_account_error,
  update_user,
}
use backend_softlogic.Auth.Sessions.{
  TouchOptions, or_option, find_session_by_token, delete_session, touch_own_session,
}

-- what a request says of the device
pub record LoginContext : Type 0 where
  pub client_session_id : Option String
  pub device_info : Option (List (String × String))
  pub ip_address : Option String

-- the id of a new session and the new refresh token
pub record Drawn : Type 0 where
  pub session_id : String
  pub refresh_token : String

-- `licensingService.assertOrganizationCanLogin`
unfoldable pub can_login : String → Exec AuthStore Unit
can_login user_id st = (assert_organization_can_login user_id (licensing_of st), st)

unfoldable pub logged_in : ℕ → AuthUser → AuthUser
logged_in now u = record u { last_login_at = some now }

-- The session of a login, and the answer.
unfoldable pub open_session : ℕ → String → LoginContext → ℕ → Drawn → Exec AuthStore AuthResponse
open_session ttl user_id ctx now drawn = do
  session ←
      touch_own_session user_id
        (record {
          client_session_id = ctx.client_session_id;
          current_refresh_token = some drawn.refresh_token;
          next_refresh_token = none;
          device_info = ctx.device_info;
          ip_address = ctx.ip_address;
        })
        (now + ttl) now drawn.session_id
  found ← gets (find_user_context_by_id user_id)
  user ← or_raise found invalid_credentials
  pure (record { refresh_token = drawn.refresh_token; user = user })

unfoldable pub password_login :
    (String → String)
    → (String → String → Bool)
    → ℕ
    → (UserRole → Bool)
    → String
    → String
    → LoginContext
    → ℕ
    → Drawn
    → Exec AuthStore AuthResponse
password_login lower compare ttl allowed email password ctx now drawn = do
  found ← gets (find_user_by_email email)
  no_account ← gets (no_active_account_error lower email)
  user ← or_raise found no_account
  password_hash ← or_raise user.password_hash invalid_credentials
  raise_if (not (compare password password_hash)) invalid_credentials
  raise_if (not (allowed user.licensed.row.role)) unauthorized
  raise_if (not user.licensed.is_active) account_suspended
  can_login user.licensed.row.id
  update_user user.licensed.row.id (logged_in now)
  open_session ttl user.licensed.row.id ctx now drawn

unfoldable pub admin_login :
    (String → String)
    → (String → String → Bool)
    → ℕ
    → String
    → String
    → LoginContext
    → ℕ
    → Drawn
    → Exec AuthStore AuthResponse
admin_login lower compare ttl = password_login lower compare ttl is_admin_role

unfoldable pub portal_login :
    (String → String)
    → (String → String → Bool)
    → ℕ
    → String
    → String
    → LoginContext
    → ℕ
    → Drawn
    → Exec AuthStore AuthResponse
portal_login lower compare ttl = password_login lower compare ttl is_licensed_role

-- `error instanceof AuthError`
unfoldable pub is_auth_error : Failure → Bool
is_auth_error invalid_credentials = true
is_auth_error token_expired = true
is_auth_error token_invalid = true
is_auth_error unauthorized = true
is_auth_error account_suspended = true
is_auth_error otp_expired = true
is_auth_error otp_invalid = true
is_auth_error otp_max_attempts = true
is_auth_error rate_limited = true
is_auth_error _ = false

given_info :
    Option (List (String × String))
    → Option (List (String × String))
    → Option (List (String × String))
given_info none old = old
given_info (some []) old = old
given_info (some (x ∷ xs)) old = some (x ∷ xs)

unfoldable pub refresh_options : String → LoginContext → Drawn → LoginSession → TouchOptions
unfolding given_info
refresh_options token ctx drawn session = record {
  client_session_id = or_option ctx.client_session_id session.client_session_id;
  current_refresh_token = some token;
  next_refresh_token = some drawn.refresh_token;
  device_info = given_info ctx.device_info session.device_info;
  ip_address = or_option ctx.ip_address session.ip_address;
}

unfoldable pub decoded_user : (String → Option String) → AuthEnv → String → String → Result String
decoded_user verify env token session_user =
    if should_relax_auth_limits env
    then ok session_user
    else elim (verify token) [ none ↦ err jwt_error | some user_id ↦ ok user_id ]

-- The session ends and the request fails, if the test holds.
unfoldable pub end_session_if : Bool → String → ℕ → Failure → Exec AuthStore Unit
end_session_if test id now e = if test then (delete_session id now >> raise e) else pure tt

-- the end of the body of the `try` of `refreshToken`
unfoldable pub renew_session :
    ℕ → String → LoginContext → ℕ → Drawn → LoginSession → AuthUser → Exec AuthStore AuthResponse
renew_session ttl token ctx now drawn session user = do
  can_login user.licensed.row.id
  touched ←
      touch_own_session user.licensed.row.id (refresh_options token ctx drawn session) (now + ttl)
        now drawn.session_id
  context ← gets (find_user_context_by_id user.licensed.row.id)
  answer ← or_raise context invalid_credentials
  pure (record { refresh_token = drawn.refresh_token; user = answer })

unfoldable pub exchange_for :
    ℕ → String → LoginContext → ℕ → Drawn → LoginSession → String → Exec AuthStore AuthResponse
exchange_for ttl token ctx now drawn session user_id = do
  known ← gets (find_user_by_id user_id)
  user ← or_raise known invalid_credentials
  raise_if (not user.licensed.is_active) invalid_credentials
  renew_session ttl token ctx now drawn session user

unfoldable pub exchange_session :
    (String → Option String)
    → ℕ
    → AuthEnv
    → String
    → LoginContext
    → ℕ
    → Drawn
    → LoginSession
    → Exec AuthStore AuthResponse
exchange_session verify ttl env token ctx now drawn session = do
  end_session_if (is_some session.revoked_at) session.id now token_invalid
  user_id ← lift (decoded_user verify env token session.user_id)
  end_session_if (not (should_relax_auth_limits env) && ltb session.expires_at now) session.id now
      token_expired
  exchange_for ttl token ctx now drawn session user_id

-- the body of the `try`
unfoldable pub exchange_token :
    (String → Option String)
    → ℕ
    → AuthEnv
    → String
    → LoginContext
    → ℕ
    → Drawn
    → Exec AuthStore AuthResponse
exchange_token verify ttl env token ctx now drawn = do
  found ← gets (find_session_by_token token)
  session ← or_raise found token_invalid
  exchange_session verify ttl env token ctx now drawn session

unfoldable pub refresh_token_failure : Failure → Failure
unfolding is_auth_error
refresh_token_failure e = if is_auth_error e then e else token_invalid

-- `refreshToken`
unfoldable pub exchange_refresh_token :
    (String → Option String)
    → ℕ
    → AuthEnv
    → String
    → LoginContext
    → ℕ
    → Drawn
    → Exec AuthStore AuthResponse
unfolding exchange_token refresh_token_failure
exchange_refresh_token verify ttl env token ctx now drawn =
    try_catch (exchange_token verify ttl env token ctx now drawn)
      (λ e. raise (refresh_token_failure e))
