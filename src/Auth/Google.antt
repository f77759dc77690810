-- ===== src/Auth/Google.antt =====
-- src/modules/auth/auth.service.ts: the sign-in with Google. `lower` is `toLowerCase`, `ttl` is what
-- `refreshSessionTtlMs` reads of the settings and `identify` is `googleStrategy.verifyIdToken`.
use backend_softlogic.Base.{
  ℕ, String, Bool, true, false, not, ◌&&◌, Option, none, some, ◌==◌, first, trim, if◌then◌else◌,
}
use backend_softlogic.Base.Exec.{Exec, Result, ok, err, pure, lift, gets, raise_if, ◌>>=◌, ◌>>◌}
use backend_softlogic.Base.Failure.{account_suspended, google_token_required}
use backend_softlogic.Auth.Store.{
  AuthResponse, AuthUser, auth_user_row, AuthStore, attempt_row, is_deleted, find_user_by_email,
  no_active_account_error, update_user,
}
use backend_softlogic.Auth.Sessions.{or_option}
use backend_softlogic.Auth.Login.{LoginContext, Drawn, can_login, open_session}

-- `GoogleUserInfo`
pub record GoogleUser : Type 0 where
  pub sub : String
  pub email : String
  pub name : Option String
  pub picture : Option String

abbrev has_google_id : String → Option String → Bool
has_google_id sub none = false
has_google_id sub (some id) = id == sub

unfoldable pub find_user_by_google_id : String → AuthStore → Option AuthUser
find_user_by_google_id sub st =
    first (λ (u : AuthUser). has_google_id sub u.google_id && not (is_deleted u)) st.users

-- the user of a Google account: linked to it before, or by the address
unfoldable pub google_account : (String → String) → GoogleUser → AuthStore → Result AuthUser
google_account lower g st = elim (find_user_by_google_id g.sub st) [
  | some u ↦ if u.licensed.is_active then ok u else err account_suspended
  | none ↦ elim (find_user_by_email (lower (trim g.email)) st) [
    | some u ↦ if u.licensed.is_active then ok u else err account_suspended
    | none ↦ err (no_active_account_error lower (lower (trim g.email)) st)
  ]
]

unfoldable pub with_google : GoogleUser → ℕ → AuthUser → AuthUser
with_google g now u = record u {
  google_id = some g.sub;
  avatar = or_option g.picture u.avatar;
  is_email_verified = true;
  last_login_at = some now;
  licensed = record u.licensed { name = or_option u.licensed.name g.name };
}

unfoldable pub google_sign_in :
    (String → String)
    → (String → Result GoogleUser)
    → ℕ
    → String
    → LoginContext
    → ℕ
    → Drawn
    → Exec AuthStore AuthResponse
google_sign_in lower identify ttl id_token ctx now drawn = do
  raise_if (trim id_token == "") google_token_required
  google_user ← lift (identify id_token)
  account ← gets (google_account lower google_user)
  user ← lift account
  update_user user.licensed.row.id (with_google google_user now)
  answer ← open_session ttl user.licensed.row.id ctx now drawn
  can_login user.licensed.row.id
  pure answer
