-- ===== src/Licensing/Keys.antt =====
-- The life of activation keys: creation, in bulk too, revocation and replacement. The text of a new key
-- and the ids of new rows are arguments; `hash` stands for `hashSecret` of a trimmed text, `encrypt` for
-- `encryptSecret`.
pub mod Capacity
pub mod Requests
pub mod Bulk
pub mod Revocation
use backend_softlogic.Base.{
  ℕ, ◌+◌, String, Bool, true, false, not, ◌&&◌, ◌||◌, Option, none, some, List, [], ◌∷◌, ◌++◌, ◌==◌,
  length, count, includes, any, ltb, is_some, or_else, same_text, concat_text, if◌then◌else◌,
}
use backend_softlogic.Base.Exec.{
  Exec, Result, ok, err, pure, raise, lift, gets, or_raise, raise_if, modify, transaction, ◌>>=◌,
  ◌>>◌,
}
use backend_softlogic.Base.Failure.{
  Failure, organization_not_found, subscription_not_found, activation_key_not_found,
  key_without_subscription, organization_inactive_for_keys, keys_need_subscription,
  subscription_of_other_organization, key_seat_limit_reached, unique_violation,
  foreign_key_violation,
}
use backend_softlogic.Base.Table.{find, update_where}
use backend_softlogic.Access.Roles.{Actor}
use backend_softlogic.Access.Directory.{Organization}
use backend_softlogic.Licensing.Store.{
  Subscription, HardwareActivationKey, HardwareActivationKeyStatus, HardwareActivation,
  HardwareActivationStatus, LicensedOrganization, LicensedUser, LicensingStore, subscription_row,
  licensed_user_row, key_row, licensed_organization_row, is_active_subscription_status, is_usable,
  is_activation_active, require_super_admin, ensure_managed, update_key,
}
use backend_softlogic.Licensing.Seats.{get_active_organization_subscription}
use backend_softlogic.Licensing.Admission.{is_closed}

-- `expiresAt` and the parts of the input that single and bulk creation share
pub record KeyInput : Type 0 where
  pub subscription_id : Option String
  pub assigned_user_id : Option String
  pub label : Option String
  pub expires_at : Option ℕ

-- what is drawn for a key: its id and its text
pub record Draw : Type 0 where
  pub id : String
  pub raw_key : String

chosen_subscription : String → Option String → LicensingStore → Option Subscription
chosen_subscription organization_id none st =
    get_active_organization_subscription organization_id st
chosen_subscription organization_id (some id) st = find id st.subscriptions

-- the subscription does not serve the organization
unfoldable pub is_unfit : String → Subscription → Bool
is_unfit organization_id s =
    not (same_text s.organization_id (some organization_id))
    || is_some s.deleted_at
    || not (is_active_subscription_status s.status)

fit : String → Option Subscription → Result Subscription
fit organization_id none = err keys_need_subscription
fit organization_id (some s) =
    if is_unfit organization_id s then err subscription_of_other_organization else ok s

key_subscription_in :
    String → Option String → LicensingStore → Option LicensedOrganization → Result Subscription
unfolding fit chosen_subscription
key_subscription_in organization_id subscription_id st none = err organization_not_found
key_subscription_in organization_id subscription_id st (some o) =
    if is_closed o
    then err organization_inactive_for_keys
    else fit organization_id (chosen_subscription organization_id subscription_id st)

unfoldable pub resolve_key_subscription :
    String → Option String → LicensingStore → Result Subscription
unfolding key_subscription_in
resolve_key_subscription organization_id subscription_id st =
    key_subscription_in organization_id subscription_id st (find organization_id st.organizations)

-- `input.expiresAt ?? subscription.endDate ?? null`
abbrev expiry : Option ℕ → Subscription → Option ℕ
expiry none s = s.end_date
expiry (some t) s = some t

-- `id: { notIn: excludeKeyIds }`
abbrev pub counts_for : String → List String → HardwareActivationKey → Bool
counts_for subscription_id excluded k =
    same_text k.subscription_id (some subscription_id)
    && is_usable k.status
    && not (includes k.id excluded)

unfoldable pub usable_count : String → List String → LicensingStore → ℕ
usable_count subscription_id excluded st = count (counts_for subscription_id excluded) st.keys

capacity_of : ℕ → ℕ → Option Subscription → Result (Unit {0})
capacity_of usable additional none = err subscription_not_found
capacity_of usable additional (some s) =
    if ltb s.seat_limit (usable + additional)
    then err (key_seat_limit_reached usable s.seat_limit)
    else ok tt

unfoldable pub assert_hardware_key_capacity : String → ℕ → List String → Exec LicensingStore Unit
unfolding capacity_of
assert_hardware_key_capacity subscription_id additional excluded st = (
  capacity_of (usable_count subscription_id excluded st) additional
      (find subscription_id st.subscriptions),
  st,
)

-- the rows of the users that the key names; the checks before have found its organization and its
-- subscription
unfoldable pub has_users : HardwareActivationKey → List LicensedUser → Bool
has_users k users =
    is_some (find k.created_by_id users)
    && elim k.assigned_user_id [ none ↦ true | some u ↦ is_some (find u users) ]

-- `create`, which the unique index on the hash and the foreign keys to the users may refuse
insert_key : HardwareActivationKey → Exec LicensingStore HardwareActivationKey
insert_key k st =
    if any (λ x. x.activation_key_hash == k.activation_key_hash) st.keys
    then (err unique_violation, st)
    else if not (has_users k st.users)
    then (err foreign_key_violation, st)
    else (ok k, record st { keys = st.keys ++ k ∷ [] })

module _ (hash encrypt : String → String) where
  new_key : Actor → String → KeyInput → Draw → Subscription → HardwareActivationKey
  new_key actor organization_id input draw subscription = record {
    id = draw.id;
    organization_id = organization_id;
    subscription_id = some subscription.id;
    activation_key_hash = hash draw.raw_key;
    activation_key_encrypted = some (encrypt draw.raw_key);
    label = input.label;
    status = HardwareActivationKeyStatus.available;
    max_devices = 1;
    assigned_user_id = input.assigned_user_id;
    created_by_id = actor.user_id;
    bound_activation_id = none;
    expires_at = expiry input.expires_at subscription;
  }

  unfoldable pub create_hardware_activation_key :
      Actor → String → KeyInput → Draw → Exec LicensingStore HardwareActivationKey
  unfolding new_key insert_key
  create_hardware_activation_key actor organization_id input draw = do
    require_super_admin actor
    organization ← ensure_managed organization_id actor
    resolved ← gets (resolve_key_subscription organization_id input.subscription_id)
    subscription ← lift resolved
    assert_hardware_key_capacity subscription.id 1 []
    insert_key (new_key actor organization_id input draw subscription)

  -- the loop over `input.keys`; each key comes with what is drawn for it
  unfoldable pub create_each :
      Actor
      → String
      → Option String
      → List (KeyInput × Draw)
      → Exec LicensingStore (List HardwareActivationKey)
  create_each actor organization_id subscription_id [] = pure []
  create_each actor organization_id subscription_id ((input, draw) ∷ rest) = do
    created ←
        create_hardware_activation_key actor organization_id
          (record input { subscription_id = subscription_id }) draw
    others ← create_each actor organization_id subscription_id rest
    pure (created ∷ others)

  unfoldable pub bulk_create_hardware_activation_keys :
      Actor
      → String
      → Option String
      → List (KeyInput × Draw)
      → Exec LicensingStore (List HardwareActivationKey)
  bulk_create_hardware_activation_keys actor organization_id subscription_id rows = do
    require_super_admin actor
    organization ← ensure_managed organization_id actor
    resolved ← gets (resolve_key_subscription organization_id subscription_id)
    subscription ← lift resolved
    assert_hardware_key_capacity subscription.id (length rows) []
    create_each actor organization_id subscription_id rows

abbrev pub is_active_activation_of : String → HardwareActivation → Bool
is_active_activation_of key_id a = (a.activation_key_id == key_id) && is_activation_active a.status

unfoldable pub disable_activation : HardwareActivation → HardwareActivation
disable_activation a = record a { status = HardwareActivationStatus.disabled }

unfoldable pub disable_key : HardwareActivationKey → HardwareActivationKey
disable_key k = record k {
  status = HardwareActivationKeyStatus.disabled;
  bound_activation_id = none;
}

-- the body of the transaction, with the number of activations that it disables
revoke_key : String → Exec LicensingStore ℕ
unfolding disable_activation disable_key
revoke_key key_id = do
  disabled ← gets (λ st. count (is_active_activation_of key_id) st.activations)
  modify (λ st. record st {
    activations = update_where (is_active_activation_of key_id) disable_activation st.activations;
  })
  update_key key_id disable_key
  pure disabled

unfoldable pub revoke_hardware_activation_key : Actor → String → Exec LicensingStore ℕ
unfolding revoke_key
revoke_hardware_activation_key actor key_id = do
  require_super_admin actor
  found ← gets (λ st. find key_id st.keys)
  key ← or_raise found activation_key_not_found
  organization ← ensure_managed key.organization_id actor
  transaction (revoke_key key_id)

-- `existing.label ? `${existing.label} replacement` : 'Replacement key'`
replacement_label : Option String → String
replacement_label none = "Replacement key"
replacement_label (some l) = if l == "" then "Replacement key" else concat_text l " replacement"

module _ (hash encrypt : String → String) where
  unfoldable pub replace_hardware_activation_key :
      Actor → String → Draw → Exec LicensingStore HardwareActivationKey
  unfolding replacement_label
  replace_hardware_activation_key actor key_id draw = do
    require_super_admin actor
    found ← gets (λ st. find key_id st.keys)
    existing ← or_raise found activation_key_not_found
    organization ← ensure_managed existing.organization_id actor
    subscription_id ← or_raise existing.subscription_id key_without_subscription
    assert_hardware_key_capacity subscription_id 1 (existing.id ∷ [])
    revoked ← revoke_hardware_activation_key actor key_id
    create_hardware_activation_key hash encrypt actor existing.organization_id
        (record {
          subscription_id = some subscription_id;
          assigned_user_id = existing.assigned_user_id;
          label = some (replacement_label existing.label);
          expires_at = existing.expires_at;
        })
        draw
