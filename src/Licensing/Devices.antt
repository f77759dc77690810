-- ===== src/Licensing/Devices.antt =====
-- The devices of an activation key: binding, verification and the reset of an activation.
pub mod Binding
pub mod Limit
use backend_softlogic.Base.{
  ℕ, String, Bool, true, false, not, ◌&&◌, ◌||◌, Option, none, some, List, [], ◌∷◌, ◌++◌, ◌==◌,
  count, first, ltb, leb, eqb, is_some, or_else, same_text, concat_text, trim, if◌then◌else◌,
}
use backend_softlogic.Base.Exec.{
  Exec, Result, ok, err, pure, raise, lift, gets, or_raise, raise_if, modify, transaction, ◌>>=◌,
  ◌>>◌,
}
use backend_softlogic.Base.Failure.{
  Failure, invalid_activation_key, activation_organization_inactive,
  activation_subscription_inactive, activation_key_expired, key_of_other_organization,
  device_limit_reached, record_not_found,
}
use backend_softlogic.Base.Table.{find, update, update_where}
use backend_softlogic.Access.Roles.{Actor}
use backend_softlogic.Licensing.Store.{
  Subscription, HardwareActivationKey, HardwareActivationKeyStatus, HardwareActivation,
  HardwareActivationStatus, LicensedOrganization, LicensedUser, LicensingStore, subscription_row,
  key_row, activation_row, licensed_organization_row, licensed_user_row,
  is_active_subscription_status, is_key_disabled, is_activation_active, require_super_admin,
  update_key, update_activation,
}
use backend_softlogic.Licensing.Admission.{is_closed}
use backend_softlogic.Licensing.Keys.{is_active_activation_of}

-- `DeviceMetaInput`, with all members of the object beside those that are read
pub record DeviceMeta : Type 0 where
  pub platform : Option String
  pub manufacturer : Option String
  pub model : Option String
  pub os_version : Option String
  pub members : List (String × String)

pub record BindInput : Type 0 where
  pub activation_key : String
  pub device_fingerprint : String
  pub device_label : Option String
  pub device_meta : Option DeviceMeta
  pub user_id : Option String

-- `value && String(value).trim()`
given_text : Option String → Option String
given_text none = none
given_text (some s) = if trim s == "" then none else some s

-- `parts.join(' ')`
join_parts : Option String → Option String → Option String
join_parts none none = none
join_parts (some a) none = some a
join_parts none (some b) = some b
join_parts (some a) (some b) = some (concat_text a (concat_text " " b))

compose_model_label : Option DeviceMeta → Option String
unfolding given_text join_parts
compose_model_label none = none
compose_model_label (some m) = join_parts (given_text m.manufacturer) (given_text m.model)

platform_of : Option DeviceMeta → Option String
platform_of none = none
platform_of (some m) = m.platform

os_version_of : Option DeviceMeta → Option String
os_version_of none = none
os_version_of (some m) = m.os_version

-- `metaToJson`
meta_to_json : Option DeviceMeta → List (String × String)
meta_to_json none = []
meta_to_json (some m) = m.members

-- `a ?? b` on values that may be null
abbrev pub or_option {ℓ} : {A : Type ℓ} → Option A → Option A → Option A
or_option none b = b
or_option (some a) b = some a

if_empty : List (String × String) → List (String × String) → List (String × String)
if_empty [] other = other
if_empty (x ∷ xs) other = x ∷ xs

-- `expiresAt && expiresAt <= now`
unfoldable pub has_expired : Option ℕ → ℕ → Bool
has_expired none now = false
has_expired (some t) now = leb t now

unfoldable pub organization_closed : String → LicensingStore → Bool
organization_closed id st = elim (find id st.organizations) [ none ↦ true | some o ↦ is_closed o ]

-- `!subscription || subscription.deletedAt || !isActiveSubscriptionStatus(subscription.status)`
unfoldable pub lacks_subscription : Option String → LicensingStore → Bool
lacks_subscription none st = true
lacks_subscription (some id) st = elim (find id st.subscriptions) [
  | none ↦ true
  | some s ↦ is_some s.deleted_at || not (is_active_subscription_status s.status)
]

-- `!user || user.primaryOrganizationId !== key.organizationId`, where a user is given
unfoldable pub is_foreign_user : Option String → String → LicensingStore → Bool
is_foreign_user none organization_id st = false
is_foreign_user (some id) organization_id st = elim (find id st.users) [
  | none ↦ true
  | some u ↦ not (same_text u.row.primary_organization_id (some organization_id))
]

-- the unique pair of a key and a device
abbrev pub is_device_of : String → String → HardwareActivation → Bool
is_device_of key_id fingerprint a =
    (a.activation_key_id == key_id) && (a.device_fingerprint_hash == fingerprint)

unfoldable pub mark_bound : String → HardwareActivationKey → HardwareActivationKey
mark_bound activation_id k = record k {
  status = HardwareActivationKeyStatus.bound;
  bound_activation_id = some (or_else k.bound_activation_id activation_id);
}

unfoldable pub mark_expired : HardwareActivationKey → HardwareActivationKey
mark_expired k = record k { status = HardwareActivationKeyStatus.expired }

unfoldable pub device_limit : HardwareActivationKey → ℕ
device_limit k = if ltb 1 k.max_devices then k.max_devices else 1

pub refreshed : BindInput → ℕ → HardwareActivation → HardwareActivation
unfolding platform_of os_version_of meta_to_json if_empty compose_model_label
refreshed input now a = record a {
  status = HardwareActivationStatus.active;
  last_verified_at = some now;
  user_id = or_option a.user_id input.user_id;
  device_label = or_option input.device_label a.device_label;
  device_platform = or_option a.device_platform (platform_of input.device_meta);
  device_model = or_option a.device_model (compose_model_label input.device_meta);
  device_os_version = or_option a.device_os_version (os_version_of input.device_meta);
  device_meta = if_empty a.device_meta (meta_to_json input.device_meta);
}

pub rebind :
    BindInput
    → ℕ
    → HardwareActivationKey
    → HardwareActivation
    → Exec LicensingStore HardwareActivation
unfolding refreshed mark_bound
rebind input now key existing = do
  activation ← update_activation existing.id (refreshed input now)
  update_key key.id (mark_bound activation.id)
  pure activation

pub new_activation : BindInput → String → String → ℕ → HardwareActivationKey → HardwareActivation
unfolding platform_of os_version_of meta_to_json compose_model_label
new_activation input fingerprint id now key = record {
  id = id;
  activation_key_id = key.id;
  organization_id = key.organization_id;
  user_id = or_option input.user_id key.assigned_user_id;
  device_fingerprint_hash = fingerprint;
  device_label = input.device_label;
  device_platform = platform_of input.device_meta;
  device_model = compose_model_label input.device_meta;
  device_os_version = os_version_of input.device_meta;
  device_meta = meta_to_json input.device_meta;
  first_bound_at = some now;
  last_verified_at = some now;
  status = HardwareActivationStatus.active;
  reset_approved_at = none;
  reset_approved_by_id = none;
}

insert_activation : HardwareActivation → Exec LicensingStore HardwareActivation
insert_activation a st = (ok a, record st { activations = st.activations ++ a ∷ [] })

pub bind_new :
    BindInput → String → String → ℕ → HardwareActivationKey → Exec LicensingStore HardwareActivation
unfolding new_activation insert_activation mark_bound
bind_new input fingerprint id now key = do
  bound ← gets (λ st. count (is_active_activation_of key.id) st.activations)
  raise_if (leb (device_limit key) bound) (device_limit_reached (device_limit key))
  activation ← insert_activation (new_activation input fingerprint id now key)
  update_key key.id (mark_bound activation.id)
  pure activation

pub bind_device :
    BindInput
    → String
    → String
    → ℕ
    → HardwareActivationKey
    → Option HardwareActivation
    → Exec LicensingStore HardwareActivation
unfolding rebind bind_new
bind_device input fingerprint id now key (some existing) = rebind input now key existing
bind_device input fingerprint id now key none = bind_new input fingerprint id now key

-- the branch of a key that has run out: the key is marked and the request refused
unfoldable pub refuse_expired : String → Exec LicensingStore Unit
unfolding mark_expired
refuse_expired key_id = do update_key key_id mark_expired; raise activation_key_expired

-- `!key || key.status === DISABLED`
live_key : Option HardwareActivationKey → Result HardwareActivationKey
live_key none = err invalid_activation_key
live_key (some k) = if is_key_disabled k.status then err invalid_activation_key else ok k

module _ (hash : String → String) where
  -- `findUnique` by the hash of the key
  unfoldable pub find_key_by_text : String → LicensingStore → Option HardwareActivationKey
  find_key_by_text text st = first (λ k. k.activation_key_hash == hash text) st.keys

  -- the body of the transaction
  pub bind_in : BindInput → String → ℕ → Exec LicensingStore HardwareActivation
  unfolding bind_device refuse_expired live_key organization_closed lacks_subscription
  bind_in input id now = do
    found ← gets (find_key_by_text input.activation_key)
    key ← lift (live_key found)
    closed ← gets (organization_closed key.organization_id)
    raise_if closed activation_organization_inactive
    lacking ← gets (lacks_subscription key.subscription_id)
    raise_if lacking activation_subscription_inactive
    if has_expired key.expires_at now then refuse_expired key.id else pure tt
    foreign ← gets (is_foreign_user input.user_id key.organization_id)
    raise_if foreign key_of_other_organization
    existing ←
        gets (λ st. first (is_device_of key.id (hash input.device_fingerprint)) st.activations)
    bind_device input (hash input.device_fingerprint) id now key existing

  -- `id` is that of a new activation; `hash` stands for `hashSecret`.
  unfoldable pub bind_hardware_activation :
      BindInput → String → ℕ → Exec LicensingStore HardwareActivation
  unfolding bind_in
  bind_hardware_activation input id now = transaction (bind_in input id now)
