-- ===== src/Auth/Setup.antt =====
-- src/modules/auth/auth.service.ts: a password set by a link. `lower` is `toLowerCase`, `compare` and
-- `hash` are those of bcrypt; the secret that `randomBytes` draws, the ids of new rows, the time of a
-- request and whether its mail is sent are arguments.
use backend_softlogic.Base.{
  ℕ, ◌+◌, ◌*◌, String, Bool, not, ◌&&◌, ◌||◌, Option, none, some, List, [], ◌∷◌, ltb, is_some, ◌==◌,
  concat_text, trim, split, if◌then◌else◌,
}
use backend_softlogic.Base.Exec.{Exec, pure, gets, or_raise, raise_if, modify, ◌>>=◌, ◌>>◌}
use backend_softlogic.Base.Failure.{
  password_setup_invalid, password_setup_inactive, password_setup_role, mail_failed,
}
use backend_softlogic.Base.Table.{find}
use backend_softlogic.Auth.Store.{
  AuthUser, auth_user_row, Otp, OtpType, otp_row, AuthMail, AuthStore, find_user_by_email,
  update_user, is_deleted,
}
use backend_softlogic.Auth.Sessions.{delete_all_user_sessions}
use backend_softlogic.Auth.Otps.{
  send_mail, create_otp, new_otp, update_otp, used, same_type, invalidate_user_otps,
  is_password_login_role,
}
use backend_softlogic.Auth.Passwords.{with_verified_password}

two_parts : List String → Option (String × String)
two_parts (a ∷ b ∷ []) = if a == "" || b == "" then none else some (a, b)
two_parts _ = none

-- `parsePasswordSetupToken`: the id of the row and the secret
unfoldable pub parse_password_setup_token : String → Option (String × String)
unfolding two_parts
parse_password_setup_token token = two_parts (split 46 (trim token))

-- `!otp || otp.type !== PASSWORD_RESET || otp.usedAt || now > otp.expiresAt`
unfoldable pub unusable : ℕ → Otp → Bool
unusable now o =
    not (same_type o.otp_type OtpType.password_reset) || is_some o.used_at || ltb o.expires_at now

-- the row of a link that may be used, and its user
unfoldable pub validate_password_setup_token :
    (String → String → Bool) → String → ℕ → Exec AuthStore (AuthUser × Otp)
validate_password_setup_token compare token now = do
  parts ← or_raise (parse_password_setup_token token) password_setup_invalid
  found ← gets (λ st. find parts.0 st.otps)
  otp ← or_raise found password_setup_invalid
  raise_if (unusable now otp) password_setup_invalid
  owner ← gets (λ st. find otp.user_id st.users)
  user ← or_raise owner password_setup_inactive
  raise_if (is_deleted user || not user.licensed.is_active) password_setup_inactive
  raise_if (not (is_password_login_role user.licensed.row.role)) password_setup_role
  raise_if (not (compare parts.1 otp.code)) password_setup_invalid
  pure (user, otp)

unfoldable pub complete_password_setup :
    (String → String → Bool) → (String → String) → String → String → ℕ → Exec AuthStore Unit
complete_password_setup compare hash token password now = do
  valid ← validate_password_setup_token compare token now
  update_user valid.1.user_id (with_verified_password (hash password))
  update_otp valid.1.id (used now)
  modify (delete_all_user_sessions valid.1.user_id now)
  modify (send_mail (AuthMail.password_changed valid.0.licensed.email))

abbrev pub password_reset_expiry : ℕ
password_reset_expiry = 24 * 60 * 60 * 1000

-- `createPasswordResetToken`, of a secret
unfoldable pub create_password_reset_token :
    (String → String) → String → String → String → ℕ → Exec AuthStore String
create_password_reset_token hash user_id secret fresh now = do
  modify (invalidate_user_otps user_id OtpType.password_reset now)
  create_otp
      (new_otp fresh user_id OtpType.password_reset (hash secret) (now + password_reset_expiry) now)
  pure (concat_text fresh (concat_text "." secret))

may_reset : AuthUser → Bool
may_reset u = u.licensed.is_active && is_password_login_role u.licensed.row.role

send_link : (String → String) → String → String → Bool → ℕ → Option AuthUser → Exec AuthStore Unit
unfolding may_reset
send_link hash secret fresh sent now none = pure tt
send_link hash secret fresh sent now (some u) = if not (may_reset u) then pure tt else (do
  token ← create_password_reset_token hash u.licensed.row.id secret fresh now
  raise_if (not sent) mail_failed
  modify (send_mail (AuthMail.reset_link u.licensed.email token)))

unfoldable pub request_password_reset :
    (String → String)
    → (String → String)
    → String
    → String
    → String
    → Bool
    → ℕ
    → Exec AuthStore Unit
unfolding send_link
request_password_reset lower hash email secret fresh sent now = do
  found ← gets (find_user_by_email (lower (trim email)))
  if lower (trim email) == "" then pure tt else send_link hash secret fresh sent now found
