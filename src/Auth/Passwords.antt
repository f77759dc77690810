-- ===== src/Auth/Passwords.antt =====
-- src/modules/auth/auth.service.ts: new passwords, after a code and by the old password.
-- `lower` is `toLowerCase`, `compare` and `hash` are those of bcrypt; the code that `generateOtp`
-- draws, the ids of new rows and the time of a request are arguments.
-- Entries of the audit log are not kept.
pub mod Reset
use backend_softlogic.Base.{
  ℕ, String, Bool, true, not, ◌&&◌, Option, none, some, is_some, ◌==◌, trim, trimmed, if◌then◌else◌,
}
use backend_softlogic.Base.Exec.{Exec, pure, gets, or_raise, raise_if, modify, ◌>>=◌, ◌>>◌}
use backend_softlogic.Base.Failure.{
  otp_invalid, account_suspended, invalid_credentials, current_password_incorrect,
}
use backend_softlogic.Auth.Store.{
  AuthUser, auth_user_row, Otp, OtpType, otp_row, AuthMail, AuthStore, AuthEnv, find_user_by_email,
  find_user_by_id, update_user,
}
use backend_softlogic.Auth.Sessions.{delete_all_user_sessions, delete_other_user_sessions}
use backend_softlogic.Auth.Otps.{
  accept_code, issue_code, send_mail, update_otp, used, is_password_login_role,
}

unfoldable pub with_password : String → AuthUser → AuthUser
with_password password_hash u = record u { password_hash = some password_hash }

unfoldable pub with_verified_password : String → AuthUser → AuthUser
with_verified_password password_hash u = record u {
  password_hash = some password_hash;
  is_email_verified = true;
}

-- The account has a password and a role that logs in by one.
has_password_login : AuthUser → Bool
has_password_login u = is_some u.password_hash && is_password_login_role u.licensed.row.role

-- the user of an address who logs in by a password
unfoldable pub password_user : (String → String) → String → AuthStore → Option AuthUser
unfolding has_password_login
password_user lower email st = elim (find_user_by_email (lower (trim email)) st) [
  | none ↦ none
  | some u ↦ if has_password_login u then some u else none
]

end_sessions : Option String → String → ℕ → AuthStore → AuthStore
end_sessions none user_id now st = delete_all_user_sessions user_id now st
end_sessions (some kept) user_id now st = delete_other_user_sessions user_id kept now st

unfoldable pub change_password :
    (String → String → Bool)
    → (String → String)
    → String
    → String
    → String
    → Option String
    → ℕ
    → Exec AuthStore Unit
unfolding end_sessions
change_password compare hash user_id current_password new_password keep_refresh_token now = do
  found ← gets (find_user_by_id user_id)
  user ← or_raise found invalid_credentials
  old_hash ← or_raise user.password_hash current_password_incorrect
  raise_if (not (compare current_password old_hash)) current_password_incorrect
  update_user user.licensed.row.id (with_password (hash new_password))
  modify (end_sessions (trimmed keep_refresh_token) user.licensed.row.id now)
  modify (send_mail (AuthMail.password_changed user.licensed.email))

unfoldable pub change_password_with_current :
    (String → String)
    → (String → String → Bool)
    → (String → String)
    → String
    → String
    → String
    → ℕ
    → Exec AuthStore Unit
change_password_with_current lower compare hash email current_password new_password now = do
  found ← gets (password_user lower email)
  user ← or_raise found current_password_incorrect
  old_hash ← or_raise user.password_hash current_password_incorrect
  raise_if (not user.licensed.is_active) account_suspended
  raise_if (not (compare current_password old_hash)) current_password_incorrect
  update_user user.licensed.row.id (with_verified_password (hash new_password))
  modify (delete_all_user_sessions user.licensed.row.id now)
  modify (send_mail (AuthMail.password_changed user.licensed.email))

request_code :
    (String → String) → AuthEnv → String → String → ℕ → Option AuthUser → Exec AuthStore Unit
request_code hash env code fresh now none = pure tt
request_code hash env code fresh now (some user) = do
  raise_if (not user.licensed.is_active) account_suspended
  issue_code hash env user.licensed.row.id OtpType.password_reset code fresh now
  modify (send_mail (AuthMail.reset_code user.licensed.email code))

unfoldable pub request_password_reset_otp :
    (String → String)
    → (String → String)
    → AuthEnv
    → String
    → String
    → String
    → ℕ
    → Exec AuthStore Unit
unfolding request_code
request_password_reset_otp lower hash env email code fresh now = do
  found ← gets (password_user lower email)
  if lower (trim email) == "" then pure tt else request_code hash env code fresh now found

unfoldable pub assert_valid_password_reset_otp :
    (String → String)
    → (String → String → Bool)
    → AuthEnv
    → String
    → String
    → ℕ
    → Exec AuthStore (AuthUser × Otp)
assert_valid_password_reset_otp lower compare env email code now = do
  found ← gets (password_user lower email)
  user ← or_raise found otp_invalid
  raise_if (not user.licensed.is_active) account_suspended
  otp ← accept_code lower compare env user.licensed.row.id OtpType.password_reset email code now
  pure (user, otp)

unfoldable pub verify_password_reset_otp :
    (String → String)
    → (String → String → Bool)
    → AuthEnv
    → String
    → String
    → ℕ
    → Exec AuthStore Unit
verify_password_reset_otp lower compare env email code now =
    assert_valid_password_reset_otp lower compare env email code now >> pure tt

unfoldable pub complete_password_reset_otp :
    (String → String)
    → (String → String → Bool)
    → (String → String)
    → AuthEnv
    → String
    → String
    → String
    → ℕ
    → Exec AuthStore Unit
complete_password_reset_otp lower compare hash env email code new_password now = do
  valid ← assert_valid_password_reset_otp lower compare env email code now
  update_user valid.0.licensed.row.id (with_verified_password (hash new_password))
  update_otp valid.1.id (used now)
  modify (delete_all_user_sessions valid.0.licensed.row.id now)
  modify (send_mail (AuthMail.password_changed valid.0.licensed.email))
