-- ===== src/Auth/Passwords/Reset.antt =====
-- A password that was set after a code, `completePasswordResetOtp` of
-- src/modules/auth/auth.service.ts.
use backend_softlogic.Base.{ℕ, String, ◌≡◌, Bool, true, some, count}
use backend_softlogic.Base.Table.{update}
use backend_softlogic.Auth.Store.{
  AuthUser, auth_user_row, Otp, OtpType, otp_row, AuthStore, AuthEnv, AuthMail,
}
use backend_softlogic.Auth.Sessions.{is_live_of, delete_all_user_sessions}
use backend_softlogic.Auth.Otps.{used, send_mail}
use backend_softlogic.Auth.Otps.Accepted.{Accepts}
use backend_softlogic.Auth.Passwords.{with_verified_password, password_user}

module _ (lower : String → String) (compare : String → String → Bool) (hash : String → String)
    (env : AuthEnv) (email code : String) (now : ℕ) where
  -- the account and its code before, and what has been written
  pub record ResetBy (new_password : String) (st st' : AuthStore) (u : AuthUser) (o : Otp)
      : Type 0 where
    pub account : password_user lower email st ≡ some u
    pub active : u.licensed.is_active ≡ true
    pub accepted :
        Accepts lower compare env u.licensed.row.id OtpType.password_reset email code now st o
    pub password :
        st'.users ≡ update u.licensed.row.id (with_verified_password (hash new_password)) st.users
    pub code_used : st'.otps ≡ update o.id (used now) st.otps
    pub signed_out : count (is_live_of u.licensed.row.id) st'.sessions ≡ 0

  abbrev marked : String → AuthUser → Otp → AuthStore → AuthStore
  marked new_password u o st = record st {
    users = update u.licensed.row.id (with_verified_password (hash new_password)) st.users;
    otps = update o.id (used now) st.otps;
  }

  abbrev written : String → AuthUser → Otp → AuthStore → AuthStore
  written new_password u o st =
      send_mail (AuthMail.password_changed u.licensed.email)
        (delete_all_user_sessions u.licensed.row.id now (marked new_password u o st))
