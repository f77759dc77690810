-- ===== src/Licensing/Store.antt =====
-- The tables that src/modules/licensing reads and writes, of prisma/schema.prisma.
use backend_softlogic.Base.{
  ℕ, String, Bool, true, false, Option, none, some, List, ◌∷◌, map, if◌then◌else◌,
}
use backend_softlogic.Base.Exec.{Exec, err, ok, raise_if}
use backend_softlogic.Base.Failure.{commercial_super_admin_only, mail_failed, record_not_found}
use backend_softlogic.Base.Table.{Row, find, update}
use backend_softlogic.Access.Roles.{UserRole, Actor, is_super_admin}
use backend_softlogic.Access.Directory.{
  Organization, OrganizationStatus, User, Membership, ParentStudentLink, Directory,
}
use backend_softlogic.Access.Managed.{ensure_organization_managed}

pub data SubscriptionStatus : Type 0 where
  active expired canceled trial pending_approval : SubscriptionStatus

pub data HardwareActivationKeyStatus : Type 0 where
  available bound disabled expired : HardwareActivationKeyStatus

pub data HardwareActivationStatus : Type 0 where
  active reset_requested reset disabled : HardwareActivationStatus

-- Times are milliseconds since the epoch.
pub record Subscription : Type 0 where
  pub id : String
  pub organization_id : Option String
  pub user_id : Option String
  pub status : SubscriptionStatus
  pub seat_limit : ℕ
  pub seat_usage : ℕ
  pub seat_alert_tier : Option ℕ
  pub expiry_reminder_tier : Option ℕ
  pub start_date : ℕ
  pub end_date : Option ℕ
  pub updated_at : ℕ
  pub deleted_at : Option ℕ

pub record HardwareActivationKey : Type 0 where
  pub id : String
  pub organization_id : String
  pub subscription_id : Option String
  pub activation_key_hash : String
  pub activation_key_encrypted : Option String
  pub label : Option String
  pub status : HardwareActivationKeyStatus
  pub max_devices : ℕ
  pub assigned_user_id : Option String
  pub created_by_id : String
  pub bound_activation_id : Option String
  pub expires_at : Option ℕ

-- `device_meta` are the members of the JSON object.
pub record HardwareActivation : Type 0 where
  pub id : String
  pub activation_key_id : String
  pub organization_id : String
  pub user_id : Option String
  pub device_fingerprint_hash : String
  pub device_label : Option String
  pub device_platform : Option String
  pub device_model : Option String
  pub device_os_version : Option String
  pub device_meta : List (String × String)
  pub first_bound_at : Option ℕ
  pub last_verified_at : Option ℕ
  pub status : HardwareActivationStatus
  pub reset_approved_at : Option ℕ
  pub reset_approved_by_id : Option String

pub record Session : Type 0 where
  pub id : String
  pub user_id : String
  pub refresh_token : Option String
  pub revoked_at : Option ℕ

-- a manual payment that has been approved
pub record PaymentTransaction : Type 0 where
  pub id : String
  pub organization_id : Option String
  pub subscription_id : Option String
  pub amount_minor : ℕ
  pub currency : String
  pub reference_note : Option String
  pub recorded_by_id : String

-- the columns of an organization that only licensing reads
pub record LicensedOrganization : Type 0 where
  pub row : Organization
  pub name : String
  pub student_login_enabled : Bool
  pub parent_login_enabled : Bool
  pub teacher_only_mode : Bool
  pub teacher_user_limit : Option ℕ
  pub student_user_limit : Option ℕ
  pub parent_user_limit : Option ℕ
  pub primary_admin_user_id : Option String

-- `is_active` says that the user's status is `ACTIVE`.
pub record LicensedUser : Type 0 where
  pub row : User
  pub email : String
  pub name : Option String
  pub is_active : Bool

pub data Mail : Type 0 where
  seat_usage_warning : String → String → ℕ → ℕ → ℕ → Mail
  -- with the days that are left
  subscription_expiry : String → String → ℕ → ℕ → Mail
  -- with the keys' texts
  activation_keys : String → String → List String → Mail

pub record LicensingStore : Type 0 where
  pub organizations : List LicensedOrganization
  pub users : List LicensedUser
  pub memberships : List Membership
  pub parent_links : List ParentStudentLink
  pub subscriptions : List Subscription
  pub keys : List HardwareActivationKey
  pub activations : List HardwareActivation
  pub sessions : List Session
  pub payments : List PaymentTransaction
  pub outbox : List Mail

instance abbrev pub subscription_row : Row Subscription
subscription_row = record { key = λ s. s.id }

instance abbrev pub key_row : Row HardwareActivationKey
key_row = record { key = λ k. k.id }

instance abbrev pub activation_row : Row HardwareActivation
activation_row = record { key = λ a. a.id }

instance abbrev pub licensed_organization_row : Row LicensedOrganization
licensed_organization_row = record { key = λ (o : LicensedOrganization). o.row.id }

instance abbrev pub licensed_user_row : Row LicensedUser
licensed_user_row = record { key = λ (u : LicensedUser). u.row.id }

-- what access control reads of the tables
abbrev pub directory_of : LicensingStore → Directory
directory_of st = record {
  organizations = map (λ (o : LicensedOrganization). o.row) st.organizations;
  users = map (λ (u : LicensedUser). u.row) st.users;
  memberships = st.memberships;
  parent_links = st.parent_links;
}

unfoldable pub is_active_subscription_status : SubscriptionStatus → Bool
is_active_subscription_status SubscriptionStatus.active = true
is_active_subscription_status SubscriptionStatus.trial = true
is_active_subscription_status _ = false

-- `USABLE_HARDWARE_KEY_STATUSES`
unfoldable pub is_usable : HardwareActivationKeyStatus → Bool
is_usable HardwareActivationKeyStatus.available = true
is_usable HardwareActivationKeyStatus.bound = true
is_usable _ = false

abbrev pub is_key_disabled : HardwareActivationKeyStatus → Bool
is_key_disabled HardwareActivationKeyStatus.disabled = true
is_key_disabled _ = false

abbrev pub is_key_expired : HardwareActivationKeyStatus → Bool
is_key_expired HardwareActivationKeyStatus.expired = true
is_key_expired _ = false

abbrev pub is_activation_active : HardwareActivationStatus → Bool
is_activation_active HardwareActivationStatus.active = true
is_activation_active _ = false

abbrev pub is_organization_active : OrganizationStatus → Bool
is_organization_active OrganizationStatus.active = true
is_organization_active _ = false

-- the role is one of `TEACHER`, `STUDENT`, `PARENT`
unfoldable pub is_licensed_role : UserRole → Bool
is_licensed_role UserRole.teacher = true
is_licensed_role UserRole.student = true
is_licensed_role UserRole.parent = true
is_licensed_role _ = false

-- `requireSuperAdmin`
abbrev pub require_super_admin : Actor → Exec LicensingStore Unit
require_super_admin actor =
    raise_if (if is_super_admin actor.role then false else true) commercial_super_admin_only

abbrev pub ensure_managed : String → Actor → Exec LicensingStore Organization
ensure_managed id actor st = (ensure_organization_managed (directory_of st) id actor, st)

abbrev pub update_subscription : String → (Subscription → Subscription) → Exec LicensingStore Unit
update_subscription id f st = elim (find id st.subscriptions) [
  | none ↦ (err record_not_found, st)
  | some s ↦ (ok tt, record st { subscriptions = update id f st.subscriptions })
]

abbrev pub update_key :
    String → (HardwareActivationKey → HardwareActivationKey) → Exec LicensingStore Unit
update_key id f st = elim (find id st.keys) [
  | none ↦ (err record_not_found, st)
  | some k ↦ (ok tt, record st { keys = update id f st.keys })
]

-- the row as it is after the update
abbrev pub update_activation :
    String → (HardwareActivation → HardwareActivation) → Exec LicensingStore HardwareActivation
update_activation id f st = elim (find id st.activations) [
  | none ↦ (err record_not_found, st)
  | some a ↦ (ok (f a), record st { activations = update id f st.activations })
]

-- `sends` says whether the mail transport takes a mail; it throws where it does not.
module _ (sends : Mail → Bool) where
  unfoldable pub send : Mail → Exec LicensingStore Unit
  send m st =
      if sends m then (ok tt, record st { outbox = m ∷ st.outbox }) else (err mail_failed, st)
