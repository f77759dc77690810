-- ===== src/Auth/Otps.antt =====
-- src/modules/auth/auth.service.ts: codes by mail, for a login and for a new password. `lower` is
-- `toLowerCase`, `compare` and `hash` are those of bcrypt (with the salt that was drawn), `ttl` is
-- what `refreshSessionTtlMs` reads of the settings. The code that `generateOtp` draws, the ids of new
-- rows and the time of a request are arguments. Entries of the audit log are not kept.
pub mod Latest
pub mod Guesses
pub mod Accepted
use backend_softlogic.Base.{
  ℕ, ◌+◌, ◌-◌, ◌*◌, String, Bool, true, false, not, ◌&&◌, ◌||◌, Option, none, some, List, [], ◌∷◌,
  ◌++◌, ◌==◌, count, keep, map, includes, ltb, leb, is_some, or_else, trim, split, if◌then◌else◌,
}
use backend_softlogic.Base.Exec.{
  Exec, ok, err, pure, raise, lift, gets, or_raise, raise_if, modify, ◌>>=◌, ◌>>◌,
}
use backend_softlogic.Base.Failure.{
  otp_expired, otp_invalid, otp_max_attempts, rate_limited, invalid_credentials, record_not_found,
  unique_violation,
}
use backend_softlogic.Base.Table.{find, update, update_where}
use backend_softlogic.Access.Roles.{UserRole, is_admin_role}
use backend_softlogic.Licensing.Store.{is_licensed_role}
use backend_softlogic.Auth.Store.{
  AuthResponse, AuthUser, Otp, OtpType, otp_row, AuthMail, AuthStore, AuthEnv, is_development,
  is_production, is_test, should_relax_auth_limits, find_user_by_id, active_account, update_user,
}
use backend_softlogic.Auth.Login.{LoginContext, Drawn, can_login, open_session}

abbrev pub otp_expiry : ℕ
otp_expiry = 10 * 60 * 1000

abbrev pub one_hour : ℕ
one_hour = 60 * 60 * 1000

abbrev pub max_otp_attempts : ℕ
max_otp_attempts = 3

abbrev pub max_otp_sends_per_hour : ℕ
max_otp_sends_per_hour = 3

abbrev pub same_type : OtpType → OtpType → Bool
same_type OtpType.email_login OtpType.email_login = true
same_type OtpType.email_verify OtpType.email_verify = true
same_type OtpType.password_reset OtpType.password_reset = true
same_type _ _ = false

-- a code of the user that was not used
abbrev pub is_open_otp : String → OtpType → Otp → Bool
is_open_otp user_id t o =
    (o.user_id == user_id) && same_type t o.otp_type && not (is_some o.used_at)

abbrev pub later : Otp → Option Otp → Otp
later o none = o
later o (some p) = if ltb o.created_at p.created_at then p else o

-- the newest row
abbrev pub latest : List Otp → Option Otp
latest [] = none
latest (o ∷ os) = some (later o (latest os))

unfoldable pub find_latest_otp : String → OtpType → AuthStore → Option Otp
find_latest_otp user_id t st = latest (keep (is_open_otp user_id t) st.otps)

unfoldable pub used : ℕ → Otp → Otp
used now o = record o { used_at = some now }

unfoldable pub increment_attempts : Otp → Otp
increment_attempts o = record o { attempts = o.attempts + 1 }

abbrev pub update_otp : String → (Otp → Otp) → Exec AuthStore Unit
update_otp id f st = elim (find id st.otps) [
  | none ↦ (err record_not_found, st)
  | some o ↦ (ok tt, record st { otps = update id f st.otps })
]

unfoldable pub invalidate_user_otps : String → OtpType → ℕ → AuthStore → AuthStore
unfolding used
invalidate_user_otps user_id t now st = record st {
  otps = update_where (is_open_otp user_id t) (used now) st.otps;
}

unfoldable pub count_recent_otps : String → OtpType → ℕ → AuthStore → ℕ
count_recent_otps user_id t since st =
    count (λ (o : Otp). (o.user_id == user_id) && same_type t o.otp_type && leb since o.created_at)
      st.otps

unfoldable pub new_otp : String → String → OtpType → String → ℕ → ℕ → Otp
new_otp id user_id t code expires_at now = record {
  id = id;
  user_id = user_id;
  code = code;
  otp_type = t;
  expires_at = expires_at;
  used_at = none;
  attempts = 0;
  created_at = now;
}

abbrev pub create_otp : Otp → Exec AuthStore Unit
create_otp o st =
    if is_some (find o.id st.otps)
    then (err unique_violation, st)
    else (ok tt, record st { otps = st.otps ++ o ∷ [] })

abbrev pub send_mail : AuthMail → AuthStore → AuthStore
send_mail m st = record st { outbox = st.outbox ++ m ∷ [] }

-- `PASSWORD_LOGIN_ROLES`
unfoldable pub is_password_login_role : UserRole → Bool
is_password_login_role role = is_admin_role role || is_licensed_role role

unfoldable pub fixed_otp_code : AuthEnv → Option String
fixed_otp_code env =
    if is_production env || not env.dev_fixed_otp_enabled
    then none
    else some (or_else env.dev_fixed_otp_code "1234")

unfoldable pub fixed_otp_allowed_emails : (String → String) → AuthEnv → List String
fixed_otp_allowed_emails lower env =
    if is_production env || not env.dev_fixed_otp_enabled
    then []
    else keep (λ s. not (s == ""))
        (map (λ s. lower (trim s)) (split 44 (or_else env.dev_fixed_otp_allowed_emails "")))

unfoldable pub should_use_fixed_otp_for_email : (String → String) → AuthEnv → String → Bool
should_use_fixed_otp_for_email lower env email =
    if not (is_some (fixed_otp_code env))
    then false
    else if should_relax_auth_limits env
    then true
    else if not (is_development env || is_test env)
    then false
    else if is_development env
    then true
    else includes email (fixed_otp_allowed_emails lower env)

abbrev is_fixed : Option String → String → Bool
is_fixed none code = false
is_fixed (some fixed) code = code == fixed

-- The code is accepted: the fixed one, or the one of the row.
unfoldable pub is_valid_code :
    (String → String) → (String → String → Bool) → AuthEnv → String → String → Otp → Bool
is_valid_code lower compare env email code o =
    (is_fixed (fixed_otp_code env) (trim code)
      && should_use_fixed_otp_for_email lower env (lower (trim email)))
    || compare (trim code) o.code

-- One failed guess is counted, and refused.
unfoldable pub refuse_code : String → Exec AuthStore Unit
unfolding increment_attempts
refuse_code id = update_otp id increment_attempts >> raise otp_invalid

unfoldable pub refuse_code_if : Bool → String → Exec AuthStore Unit
refuse_code_if test id = if test then refuse_code id else pure tt

-- The newest code of a type, if the given one is it: the steps that `verifyOtp` and
-- `assertValidPasswordResetOtp` share.
unfoldable pub accept_code :
    (String → String)
    → (String → String → Bool)
    → AuthEnv
    → String
    → OtpType
    → String
    → String
    → ℕ
    → Exec AuthStore Otp
accept_code lower compare env user_id t email code now = do
  found ← gets (find_latest_otp user_id t)
  otp ← or_raise found otp_invalid
  raise_if (ltb otp.expires_at now) otp_expired
  raise_if (not (should_relax_auth_limits env) && leb max_otp_attempts otp.attempts)
      otp_max_attempts
  refuse_code_if (not (is_valid_code lower compare env email code otp)) otp.id
  pure otp

-- A new code in place of the ones before.
unfoldable pub issue_code :
    (String → String) → AuthEnv → String → OtpType → String → String → ℕ → Exec AuthStore Unit
issue_code hash env user_id t code fresh now = do
  recent ← gets (count_recent_otps user_id t (now - one_hour))
  raise_if (not (should_relax_auth_limits env) && leb max_otp_sends_per_hour recent) rate_limited
  modify (invalidate_user_otps user_id t now)
  create_otp (new_otp fresh user_id t (hash code) (now + otp_expiry) now)

unfoldable pub send_otp :
    (String → String)
    → (String → String)
    → AuthEnv
    → String
    → String
    → String
    → ℕ
    → Exec AuthStore Unit
send_otp lower hash env email code fresh now = do
  account ← gets (active_account lower email)
  user ← lift account
  issue_code hash env user.licensed.row.id OtpType.email_login code fresh now
  modify (send_mail (AuthMail.login_code email code))

unfoldable pub verified_login : ℕ → AuthUser → AuthUser
verified_login now u = record u { is_email_verified = true; last_login_at = some now }

unfoldable pub verify_otp :
    (String → String)
    → (String → String → Bool)
    → ℕ
    → AuthEnv
    → String
    → String
    → LoginContext
    → ℕ
    → Drawn
    → Exec AuthStore AuthResponse
verify_otp lower compare ttl env email code ctx now drawn = do
  account ← gets (active_account lower email)
  user ← lift account
  otp ← accept_code lower compare env user.licensed.row.id OtpType.email_login email code now
  update_user user.licensed.row.id (verified_login now)
  known ← gets (find_user_by_id user.licensed.row.id)
  refreshed ← or_raise known invalid_credentials
  can_login refreshed.licensed.row.id
  answer ← open_session ttl user.licensed.row.id ctx now drawn
  update_otp otp.id (used now)
  pure answer
