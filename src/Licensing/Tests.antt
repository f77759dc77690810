-- ===== src/Licensing/Tests.antt =====
-- Runs of keys, devices, admissions and sweeps.
use backend_softlogic.Base.{
  ℕ, ◌+◌, ◌≤◌, String, ◌≡◌, ◌⊎◌, refl, Bool, true, false, none, some, List, [], ◌∷◌, count, ◌&&◌,
  arith,
}
use backend_softlogic.Base.Int.{pos}
use backend_softlogic.Base.Exec.{ok, err}
use backend_softlogic.Base.Failure.{invalid_activation_key, activation_key_expired}
use backend_softlogic.Base.Table.{find}
use backend_softlogic.Access.Roles.{UserRole, Actor, is_super_admin}
use backend_softlogic.Access.Directory.{OrganizationKind, OrganizationStatus}
use backend_softlogic.Licensing.Store.{
  Subscription, SubscriptionStatus, HardwareActivationKey, HardwareActivationKeyStatus,
  HardwareActivation, HardwareActivationStatus, LicensedOrganization, LicensedUser, LicensingStore,
  Mail, key_row, activation_row, is_usable, is_licensed_role, is_active_subscription_status,
}
use backend_softlogic.Access.Managed.{ensure_organization_managed}
use backend_softlogic.Licensing.Seats.{
  is_active_member, active_licensed_users, get_active_organization_subscription,
}
use backend_softlogic.Licensing.Admission.{
  is_closed, same_role, role_limit, used_for_role, used_seats, assert_can_activate_user_role,
  assert_organization_can_login,
}
use backend_softlogic.Licensing.Admission.Room.{Admitted, with_user, activate-login, activate-seats}
use backend_softlogic.Licensing.Keys.{
  KeyInput, Draw, usable_count, is_active_activation_of, revoke_hardware_activation_key,
}
use backend_softlogic.Licensing.Keys.Capacity.{WithinSeats}
use backend_softlogic.Licensing.Keys.Requests.{KeyRequest, after_all, key_requests-WithinSeats}
use backend_softlogic.Licensing.Devices.{
  BindInput, device_limit, bind_hardware_activation, find_key_by_text, organization_closed,
  lacks_subscription, has_expired, is_foreign_user,
}
use backend_softlogic.Licensing.Devices.Binding.{Admits, active_devices}
use backend_softlogic.Licensing.Devices.Limit.{
  Outcome, bind-Outcome, rebind_ignores_limit, bind_expired-unmarked,
}
use backend_softlogic.Licensing.Verification.{Verdict, Reason, verify_hardware_activation}
use backend_softlogic.Licensing.Verification.RoundTrip.{same_device, valid_for, verify-bind}
use backend_softlogic.Licensing.Verification.Revoked.{revoke-useless}
use backend_softlogic.Licensing.Sweep.{
  sweep_subscriptions, has_lapsed, is_ended, current_expiry_tier,
}
use backend_softlogic.Licensing.Sweep.Settled.{IsSettled, sweep-IsSettled}
use backend_softlogic.Licensing.Sweep.Organizations.{IsCutOff, sweep-IsCutOff}
use backend_softlogic.Licensing.Sweep.Tiers.{IsClosest, current_expiry_tier-IsClosest}

abbrev hash : String → String
hash s = s

abbrev takes : Mail → Bool
takes m = true

abbrev school : LicensedOrganization
school = record {
  row = record {
    id = "o";
    kind = OrganizationKind.customer;
    parent_organization_id = none;
    status = OrganizationStatus.active;
    deleted_at = none;
  };
  name = "School";
  student_login_enabled = true;
  parent_login_enabled = false;
  teacher_only_mode = false;
  teacher_user_limit = some 2;
  student_user_limit = none;
  parent_user_limit = none;
  primary_admin_user_id = none;
}

abbrev member : String → LicensedUser
member id = record {
  row = record {
    id = id;
    role = UserRole.teacher;
    primary_organization_id = some "o";
    deleted_at = none;
  };
  email = "t@school";
  name = none;
  is_active = true;
}

abbrev subscription : String → SubscriptionStatus → Subscription
subscription id status = record {
  id = id;
  organization_id = some "o";
  user_id = none;
  status = status;
  seat_limit = 2;
  seat_usage = 1;
  seat_alert_tier = none;
  expiry_reminder_tier = none;
  start_date = 0;
  end_date = some 500;
  updated_at = 0;
  deleted_at = none;
}

abbrev key : HardwareActivationKey
key = record {
  id = "k";
  organization_id = "o";
  subscription_id = some "s";
  activation_key_hash = "SL-1";
  activation_key_encrypted = none;
  label = none;
  status = HardwareActivationKeyStatus.bound;
  max_devices = 1;
  assigned_user_id = none;
  created_by_id = "root";
  bound_activation_id = some "a1";
  expires_at = some 400;
}

abbrev device : String → String → HardwareActivationStatus → HardwareActivation
device id fingerprint status = record {
  id = id;
  activation_key_id = "k";
  organization_id = "o";
  user_id = none;
  device_fingerprint_hash = fingerprint;
  device_label = none;
  device_platform = none;
  device_model = none;
  device_os_version = none;
  device_meta = [];
  first_bound_at = some 1;
  last_verified_at = some 1;
  status = status;
  reset_approved_at = none;
  reset_approved_by_id = none;
}

-- One device of the key was reset, another is active.
abbrev tables : LicensingStore
tables = record {
  organizations = school ∷ [];
  users = member "t" ∷ [];
  memberships = [];
  parent_links = [];
  subscriptions = subscription "s" SubscriptionStatus.active ∷ [];
  keys = key ∷ [];
  activations =
      device "a1" "old" HardwareActivationStatus.reset
      ∷ device "a2" "new" HardwareActivationStatus.active
      ∷ [];
  sessions = [];
  payments = [];
  outbox = [];
}

abbrev request : String → BindInput
request fingerprint = record {
  activation_key = "SL-1";
  device_fingerprint = fingerprint;
  device_label = none;
  device_meta = none;
  user_id = some "t";
}

abbrev root : Actor
root = record { user_id = "root"; role = UserRole.super_admin; organization_id = none }

abbrev quiet : LicensingStore
quiet = record tables { activations = [] }

abbrev bound_device : HardwareActivation
bound_device = record (device "a3" "dev" HardwareActivationStatus.active) {
  user_id = some "t";
  first_bound_at = some 100;
  last_verified_at = some 100;
}

bind-Outcome_example :
    (k : HardwareActivationKey) × Admits hash (request "dev") "a3" 100 quiet k
    × Outcome hash
        (request "dev")
        "a3"
        100
        quiet
        k
        bound_device
        (bind_hardware_activation hash (request "dev") "a3" 100 quiet).1
unfolding find bind_hardware_activation find_key_by_text is_closed is_active_subscription_status
    has_expired is_foreign_user device_limit
bind-Outcome_example =
    bind-Outcome hash (request "dev") "a3" 100 quiet
      (bind_hardware_activation hash (request "dev") "a3" 100 quiet).1 bound_device (refl, tt) tt
      refl refl

rebind_ignores_limit_example :
    (a : HardwareActivation) × (st' : LicensingStore) × (bind_hardware_activation hash
        (request "old")
        "a3"
        100
        tables
      ≡ (ok a, st'))
    × (active_devices hash (request "old") "a3" 100 st' key
        ≡ active_devices hash (request "old") "a3" 100 tables key + 1)
unfolding find find_key_by_text organization_closed lacks_subscription has_expired is_foreign_user
    is_closed is_active_subscription_status
rebind_ignores_limit_example =
    rebind_ignores_limit hash (request "old") "a3" 100 tables key
      (device "a1" "old" HardwareActivationStatus.reset) (refl, tt) (refl, (refl, tt)) refl
      (record {
        found = refl;
        enabled = refl;
        open_organization = refl;
        subscribed = refl;
        current = refl;
        own_user = refl;
      })
      refl refl

bind_expired-unmarked_example :
    bind_hardware_activation hash (request "dev") "a3" 450 quiet
    ≡ (err activation_key_expired, quiet)
unfolding find find_key_by_text organization_closed lacks_subscription has_expired is_closed
    is_active_subscription_status
bind_expired-unmarked_example =
    bind_expired-unmarked hash (request "dev") "a3" 450 quiet key (refl, tt) refl refl refl refl
      refl

verify-bind_example :
    (verify_hardware_activation hash
      (same_device (request "dev"))
      200
      (bind_hardware_activation hash (request "dev") "a3" 100 quiet).1).0
    ≡ ok (valid_for key 200)
unfolding find bind_hardware_activation find_key_by_text is_closed is_active_subscription_status
    has_expired is_foreign_user device_limit
verify-bind_example =
    verify-bind hash (request "dev") 200 "a3" 100 quiet
      (bind_hardware_activation hash (request "dev") "a3" 100 quiet).1 bound_device key (refl, tt)
      tt refl refl refl refl

revoke-useless_example :
    let after = (revoke_hardware_activation_key root "k" tables).1 in
    (◌≡◌ {A = ℕ} 1 (count (is_active_activation_of "k") tables.activations))
    × (count (is_active_activation_of "k") after.activations ≡ 0)
    × (bind_hardware_activation hash (request "new") "a3" 100 after
        ≡ (err invalid_activation_key, after))
    × (((verify_hardware_activation hash (same_device (request "new")) 100 after).0
          ≡ ok (Verdict.invalid Reason.organization_mismatch))
        ⊎ ((verify_hardware_activation hash (same_device (request "new")) 100 after).0
            ≡ ok (Verdict.invalid Reason.disabled)))
unfolding find find_key_by_text revoke_hardware_activation_key is_super_admin
    ensure_organization_managed
revoke-useless_example =
    revoke-useless hash (request "new") root key tables
      (revoke_hardware_activation_key root "k" tables).1 1 "a3" 100 (refl, tt) refl refl

abbrev row : KeyInput
row = record {
  subscription_id = some "s";
  assigned_user_id = none;
  label = none;
  expires_at = none;
}

abbrev administrator : LicensedUser
administrator = record (member "root") {
  row = record {
    id = "root";
    role = UserRole.super_admin;
    primary_organization_id = none;
    deleted_at = none;
  };
}

-- with the administrator and with room for more keys
abbrev staffed : LicensingStore
staffed = record tables {
  users = administrator ∷ tables.users;
  subscriptions = record (subscription "s" SubscriptionStatus.active) { seat_limit = 4 } ∷ [];
}

staffed-WithinSeats : WithinSeats staffed
unfolding usable_count is_usable find
staffed-WithinSeats = record { within = λ id s e. ground arith }

key_requests-WithinSeats_example : WithinSeats (
    after_all hash hash staffed (
      (root, KeyRequest.create "o" row (record { id = "k2"; raw_key = "SL-2" }))
      ∷ (root, KeyRequest.replace "k" (record { id = "k3"; raw_key = "SL-3" }))
      ∷ []))
key_requests-WithinSeats_example =
    key_requests-WithinSeats hash hash
      ((root, KeyRequest.create "o" row (record { id = "k2"; raw_key = "SL-2" }))
        ∷ (root, KeyRequest.replace "k" (record { id = "k3"; raw_key = "SL-3" }))
        ∷ [])
      staffed staffed-WithinSeats

-- The second row names a user who is not there.
abbrev two_rows : List (KeyInput × Draw)
two_rows =
    (row, record { id = "k2"; raw_key = "SL-2" })
    ∷ (record row { assigned_user_id = some "nobody" }, record { id = "k3"; raw_key = "SL-3" })
    ∷ []

activate-login_example : assert_organization_can_login "t" tables ≡ ok tt
unfolding find assert_can_activate_user_role get_active_organization_subscription
    is_active_subscription_status is_licensed_role is_closed role_limit used_for_role used_seats
activate-login_example =
    activate-login "o" UserRole.teacher none tables "t" (member "t") refl refl refl refl refl

activate-seats_example :
    (a : Admitted "o" UserRole.teacher none tables) × (active_licensed_users "o"
        (with_user "o" UserRole.teacher tables (member "u"))
      ≤ a.subscription.seat_limit)
    × ((role_limit UserRole.teacher a.organization ≡ none)
        ⊎ ((limit : ℕ) × (role_limit UserRole.teacher a.organization ≡ some limit)
            × (count
                  (λ u. is_active_member "o" u && same_role UserRole.teacher u.row.role)
                  (with_user "o" UserRole.teacher tables (member "u")).users
                ≤ limit)))
unfolding find assert_can_activate_user_role get_active_organization_subscription
    is_active_subscription_status is_licensed_role is_closed role_limit used_for_role used_seats
activate-seats_example = activate-seats "o" UserRole.teacher tables (member "u") refl refl

abbrev lapsed : LicensingStore
lapsed = record tables {
  subscriptions =
      subscription "s" SubscriptionStatus.active
      ∷ subscription "s0" SubscriptionStatus.canceled
      ∷ [];
}

sweep-IsSettled_example : IsSettled 100 (sweep_subscriptions hash takes 100 lapsed).1
sweep-IsSettled_example = sweep-IsSettled hash takes 100 lapsed

-- The organization has a subscription in force beside the one that was canceled.
sweep-IsCutOff_example : IsCutOff "o" (sweep_subscriptions hash takes 100 lapsed).1
unfolding has_lapsed is_ended
sweep-IsCutOff_example = sweep-IsCutOff hash takes 100 "o" lapsed refl

current_expiry_tier-IsClosest_example : IsClosest (pos 8) (current_expiry_tier (pos 8))
current_expiry_tier-IsClosest_example = current_expiry_tier-IsClosest (pos 8)
