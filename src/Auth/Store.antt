-- ===== src/Auth/Store.antt =====
-- The tables that src/modules/auth reads and writes, of prisma/schema.prisma, the settings it reads
-- of src/config/env.ts, and its queries on users.
use backend_softlogic.Base.{
  ℕ, String, Bool, true, false, not, ◌&&◌, ◌||◌, Option, none, some, List, [], map, any, first,
  ◌==◌, is_some, trim, if◌then◌else◌,
}
use backend_softlogic.Base.Exec.{Exec, Result, ok, err}
use backend_softlogic.Base.Failure.{
  Failure, account_suspended, invalid_credentials, record_not_found,
}
use backend_softlogic.Base.Table.{Row, find, update}
use backend_softlogic.Access.Directory.{Membership}
use backend_softlogic.Licensing.Store.{LicensedOrganization, LicensedUser, LicensingStore}

-- A user's row: the columns that licensing reads too, and the columns of the login.
pub record AuthUser : Type 0 where
  pub licensed : LicensedUser
  pub archived_email : Option String
  pub google_id : Option String
  pub avatar : Option String
  pub password_hash : Option String
  pub is_email_verified : Bool
  pub last_login_at : Option ℕ

pub data OtpType : Type 0 where
  email_login email_verify password_reset : OtpType

-- Times are milliseconds since the epoch.
pub record Otp : Type 0 where
  pub id : String
  pub user_id : String
  pub code : String
  pub otp_type : OtpType
  pub expires_at : ℕ
  pub used_at : Option ℕ
  pub attempts : ℕ
  pub created_at : ℕ

-- `device_info` are the members of the JSON object.
pub record LoginSession : Type 0 where
  pub id : String
  pub user_id : String
  pub refresh_token : Option String
  pub client_session_id : Option String
  pub device_info : Option (List (String × String))
  pub ip_address : Option String
  pub expires_at : ℕ
  pub last_seen_at : Option ℕ
  pub revoked_at : Option ℕ
  pub created_at : ℕ

-- Mails that were tried: a login code, a code for a new password, a link, a confirmation.
pub data AuthMail : Type 0 where
  login_code reset_code reset_link : String → String → AuthMail
  password_changed : String → AuthMail

-- `AuthResponse`, without the access token
pub record AuthResponse : Type 0 where
  pub refresh_token : String
  pub user : AuthUser

pub data GoogleDesktopAuthAttemptStatus : Type 0 where
  pending completed failed expired : GoogleDesktopAuthAttemptStatus

-- `errorMessage`: its texts, Google's own one, and that of an error
pub data AttemptMessage : Type 0 where
  session_expired cancelled no_code no_payload not_completed already_completed : AttemptMessage
  described : String → AttemptMessage
  refused : Failure → AttemptMessage

pub record GoogleDesktopAuthAttempt : Type 0 where
  pub id : String
  pub user_id : Option String
  pub state : String
  pub status : GoogleDesktopAuthAttemptStatus
  pub error_message : Option AttemptMessage
  pub session_payload : Option AuthResponse
  pub expires_at : ℕ
  pub completed_at : Option ℕ
  pub consumed_at : Option ℕ

pub record AuthStore : Type 0 where
  pub organizations : List LicensedOrganization
  pub memberships : List Membership
  pub users : List AuthUser
  pub sessions : List LoginSession
  pub otps : List Otp
  pub outbox : List AuthMail
  pub attempts : List GoogleDesktopAuthAttempt

pub data NodeEnv : Type 0 where
  development production test : NodeEnv

pub record AuthEnv : Type 0 where
  pub node_env : NodeEnv
  pub testing_relax_auth_limits : Bool
  pub dev_fixed_otp_enabled : Bool
  pub dev_fixed_otp_code : Option String
  pub dev_fixed_otp_allowed_emails : Option String

instance abbrev pub auth_user_row : Row AuthUser
auth_user_row = record { key = λ (u : AuthUser). u.licensed.row.id }

instance abbrev pub otp_row : Row Otp
otp_row = record { key = λ (o : Otp). o.id }

instance abbrev pub login_session_row : Row LoginSession
login_session_row = record { key = λ (s : LoginSession). s.id }

instance abbrev pub attempt_row : Row GoogleDesktopAuthAttempt
attempt_row = record { key = λ (a : GoogleDesktopAuthAttempt). a.id }

-- what `licensingService.assertOrganizationCanLogin` is asked about
unfoldable pub licensing_of : AuthStore → LicensingStore
licensing_of st = record {
  organizations = st.organizations;
  users = map (λ (u : AuthUser). u.licensed) st.users;
  memberships = st.memberships;
  parent_links = [];
  subscriptions = [];
  keys = [];
  activations = [];
  sessions = [];
  payments = [];
  outbox = [];
}

abbrev pub is_development : AuthEnv → Bool
is_development env = elim env.node_env [ NodeEnv.development ↦ true | _ ↦ false ]

abbrev pub is_production : AuthEnv → Bool
is_production env = elim env.node_env [ NodeEnv.production ↦ true | _ ↦ false ]

abbrev pub is_test : AuthEnv → Bool
is_test env = elim env.node_env [ NodeEnv.test ↦ true | _ ↦ false ]

unfoldable pub should_relax_auth_limits : AuthEnv → Bool
should_relax_auth_limits env = is_development env || env.testing_relax_auth_limits

abbrev pub is_deleted : AuthUser → Bool
is_deleted u = is_some u.licensed.row.deleted_at

unfoldable pub find_user_by_email : String → AuthStore → Option AuthUser
find_user_by_email email st =
    first (λ (u : AuthUser). (u.licensed.email == email) && not (is_deleted u)) st.users

unfoldable pub find_user_by_id : String → AuthStore → Option AuthUser
find_user_by_id id st =
    first (λ (u : AuthUser). (u.licensed.row.id == id) && not (is_deleted u)) st.users

-- `findUserContextById`, without the parts of the context
unfoldable pub find_user_context_by_id : String → AuthStore → Option AuthUser
find_user_context_by_id id st = elim (find id st.users) [
  | none ↦ none
  | some u ↦ if is_deleted u then none else some u
]

abbrev pub update_user : String → (AuthUser → AuthUser) → Exec AuthStore Unit
update_user id f st = elim (find id st.users) [
  | none ↦ (err record_not_found, st)
  | some u ↦ (ok tt, record st { users = update id f st.users })
]

-- `lower` is `String.prototype.toLowerCase`.
module _ (lower : String → String) where
  archived_as : String → Option String → Bool
  archived_as email none = false
  archived_as email (some archived) = lower archived == lower email

  -- whether `findDeletedUserByEmail` finds a row
  unfoldable pub has_deleted_user : String → AuthStore → Bool
  unfolding archived_as
  has_deleted_user email st =
      not (trim email == "")
      && any
          (λ (u : AuthUser).
            is_deleted u
            && ((lower u.licensed.email == lower (trim email))
                || archived_as (trim email) u.archived_email))
          st.users

  -- `noActiveAccountError`
  unfoldable pub no_active_account_error : String → AuthStore → Failure
  unfolding has_deleted_user
  no_active_account_error email st =
      if has_deleted_user email st then account_suspended else invalid_credentials

  -- the user of an address, if the account may be used
  unfoldable pub active_account : String → AuthStore → Result AuthUser
  unfolding no_active_account_error
  active_account email st = elim (find_user_by_email email st) [
    | none ↦ err (no_active_account_error email st)
    | some u ↦ if u.licensed.is_active then ok u else err account_suspended
  ]
