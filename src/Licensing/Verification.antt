-- ===== src/Licensing/Verification.antt =====
-- Verification of a device, and the reset of an activation.
pub mod RoundTrip
pub mod Revoked
use backend_softlogic.Base.{
  ℕ, String, Bool, true, false, not, ◌&&◌, Option, none, some, first, is_some, same_text,
  if◌then◌else◌,
}
use backend_softlogic.Base.Exec.{Exec, pure, gets, modify, ◌>>=◌, ◌>>◌}
use backend_softlogic.Base.Table.{find, update_where}
use backend_softlogic.Access.Roles.{Actor}
use backend_softlogic.Licensing.Store.{
  Subscription, HardwareActivationKey, HardwareActivationKeyStatus, HardwareActivation,
  HardwareActivationStatus, LicensingStore, subscription_row, activation_row,
  licensed_organization_row, is_active_subscription_status, is_key_disabled, is_activation_active,
  require_super_admin, update_key, update_activation,
}
use backend_softlogic.Licensing.Admission.{is_closed}
use backend_softlogic.Licensing.Devices.{
  find_key_by_text, organization_closed, is_foreign_user, has_expired, is_device_of, mark_expired,
  or_option,
}

-- of the bound device of another device's answer: platform, model, version and first binding
pub record BoundDevice : Type 0 where
  pub platform : Option String
  pub model : Option String
  pub os_version : Option String
  pub first_bound_at : Option ℕ

pub data Reason : Type 0 where
  invalid_key organization_mismatch disabled expired not_bound inactive_activation : Reason
  organization_inactive subscription_inactive : Reason
  bound_to_other_device : BoundDevice → Reason

pub record Verified : Type 0 where
  pub organization_id : String
  pub subscription_id : Option String
  pub expires_at : Option ℕ
  pub last_verified_at : Option ℕ

-- `VerifyHardwareActivationResult`
pub data Verdict : Type 0 where
  valid : Verified → Verdict
  invalid : Reason → Verdict

pub record VerifyInput : Type 0 where
  pub activation_key : String
  pub device_fingerprint : String
  pub user_id : Option String

-- `key.subscription && !isActiveSubscriptionStatus(key.subscription.status)`
subscription_lapsed : Option String → LicensingStore → Bool
subscription_lapsed none st = false
subscription_lapsed (some id) st = elim (find id st.subscriptions) [
  | none ↦ false
  | some s ↦ not (is_active_subscription_status s.status)
]

bound_activation : Option String → LicensingStore → Option HardwareActivation
bound_activation none st = none
bound_activation (some id) st = find id st.activations

unbound : Option HardwareActivation → Reason
unbound none = Reason.not_bound
unbound (some a) = Reason.bound_to_other_device (record {
  platform = a.device_platform;
  model = a.device_model;
  os_version = a.device_os_version;
  first_bound_at = a.first_bound_at;
})

verified : VerifyInput → ℕ → HardwareActivation → HardwareActivation
verified input now a = record a {
  last_verified_at = some now;
  user_id = or_option a.user_id input.user_id;
}

accept : VerifyInput → ℕ → HardwareActivationKey → HardwareActivation → Exec LicensingStore Verdict
unfolding verified
accept input now key a = do
  updated ← update_activation a.id (verified input now)
  pure (
      Verdict.valid (record {
        organization_id = key.organization_id;
        subscription_id = key.subscription_id;
        expires_at = key.expires_at;
        last_verified_at = updated.last_verified_at;
      }))

verify_device :
    VerifyInput
    → ℕ
    → HardwareActivationKey
    → Option HardwareActivation
    → Exec LicensingStore Verdict
unfolding accept bound_activation unbound subscription_lapsed organization_closed
verify_device input now key none st =
    pure (Verdict.invalid (unbound (bound_activation key.bound_activation_id st))) st
verify_device input now key (some a) st =
    if not (is_activation_active a.status)
    then pure (Verdict.invalid Reason.inactive_activation) st
    else if organization_closed key.organization_id st
    then pure (Verdict.invalid Reason.organization_inactive) st
    else if subscription_lapsed key.subscription_id st
    then pure (Verdict.invalid Reason.subscription_inactive) st
    else accept input now key a st

answer_expired : String → Exec LicensingStore Verdict
unfolding mark_expired
answer_expired key_id = do update_key key_id mark_expired; pure (Verdict.invalid Reason.expired)

module _ (hash : String → String) where
  verify_key : VerifyInput → ℕ → Option HardwareActivationKey → Exec LicensingStore Verdict
  unfolding verify_device answer_expired
  verify_key input now none st = pure (Verdict.invalid Reason.invalid_key) st
  verify_key input now (some key) st =
      if is_foreign_user input.user_id key.organization_id st
      then pure (Verdict.invalid Reason.organization_mismatch) st
      else if is_key_disabled key.status
      then pure (Verdict.invalid Reason.disabled) st
      else if has_expired key.expires_at now
      then answer_expired key.id st
      else verify_device input now key
          (first (is_device_of key.id (hash input.device_fingerprint)) st.activations) st

  unfoldable pub verify_hardware_activation : VerifyInput → ℕ → Exec LicensingStore Verdict
  unfolding verify_key
  verify_hardware_activation input now st =
      verify_key input now (find_key_by_text hash input.activation_key st) st

approve_reset : Actor → ℕ → HardwareActivation → HardwareActivation
approve_reset actor now a = record a {
  status = HardwareActivationStatus.reset;
  reset_approved_at = some now;
  reset_approved_by_id = some actor.user_id;
}

release_key : HardwareActivationKey → HardwareActivationKey
release_key k = record k {
  bound_activation_id = none;
  status = HardwareActivationKeyStatus.available;
}

-- `where: { boundActivationId: activationId }`
is_bound_by : String → HardwareActivationKey → Bool
is_bound_by activation_id k = same_text k.bound_activation_id (some activation_id)

unfoldable pub reset_hardware_activation :
    Actor → String → ℕ → Exec LicensingStore HardwareActivation
unfolding approve_reset release_key is_bound_by
reset_hardware_activation actor activation_id now = do
  require_super_admin actor
  activation ← update_activation activation_id (approve_reset actor now)
  modify (λ st. record st { keys = update_where (is_bound_by activation_id) release_key st.keys })
  pure activation
