-- ===== src/Licensing/Renewal.antt =====
-- The renewal of a subscription, offline payments and what is listed for a subscription.
use backend_softlogic.Base.{
  ℕ, String, Bool, true, false, not, ◌&&◌, ◌||◌, Option, none, some, List, ◌∷◌, ◌==◌, count, keep,
  ltb, same_text, or_else, if◌then◌else◌,
}
use backend_softlogic.Base.Exec.{Exec, pure, gets, or_raise, modify, transaction, ◌>>=◌, ◌>>◌}
use backend_softlogic.Base.Failure.{subscription_not_found}
use backend_softlogic.Base.Table.{find, update_where}
use backend_softlogic.Access.Roles.{Actor}
use backend_softlogic.Licensing.Store.{
  Subscription, SubscriptionStatus, HardwareActivationKey, HardwareActivationKeyStatus,
  PaymentTransaction, LicensingStore, Mail, subscription_row, licensed_user_row, is_key_disabled,
  is_key_expired, require_super_admin, ensure_managed, update_subscription,
}
use backend_softlogic.Licensing.Seats.{recalculate_license_usage}

pub record PaymentInput : Type 0 where
  pub amount_minor : ℕ
  pub currency : Option String
  pub reference_note : Option String

pub record RenewalInput : Type 0 where
  pub new_end_date : ℕ
  pub extend_keys : Bool
  pub payment : Option PaymentInput

-- a managed organization, if one is given
ensure_managed_if : Option String → Actor → Exec LicensingStore Unit
ensure_managed_if none actor = pure tt
ensure_managed_if (some id) actor = do organization ← ensure_managed id actor; pure tt

-- the organization of the subscription, or that of the user who owns it
organization_concerned : Subscription → LicensingStore → Option String
organization_concerned s st = elim s.organization_id [
  | some id ↦ some id
  | none ↦ elim s.user_id [
    | none ↦ none
    | some user_id ↦ elim (find user_id st.users) [
      | none ↦ none
      | some u ↦ u.row.primary_organization_id
    ]
  ]
]

-- `wasExpired`
unfoldable pub had_lapsed : SubscriptionStatus → Bool
had_lapsed SubscriptionStatus.expired = true
had_lapsed SubscriptionStatus.canceled = true
had_lapsed _ = false

unfoldable pub renewed : ℕ → ℕ → Subscription → Subscription
unfolding had_lapsed
renewed new_end_date now s = record s {
  status = SubscriptionStatus.active;
  end_date = some new_end_date;
  start_date = if had_lapsed s.status then now else s.start_date;
  seat_alert_tier = none;
  expiry_reminder_tier = none;
  updated_at = now;
}

record_payment : Actor → String → Subscription → PaymentInput → Exec LicensingStore Unit
record_payment actor id s p = modify (λ st. record st {
  payments =
      record {
        id = id;
        organization_id = s.organization_id;
        subscription_id = some s.id;
        amount_minor = p.amount_minor;
        currency = or_else p.currency "INR";
        reference_note = some (or_else p.reference_note "Subscription renewal");
        recorded_by_id = actor.user_id;
      }
      ∷ st.payments;
})

pay : Actor → String → Subscription → Option PaymentInput → Exec LicensingStore Unit
unfolding record_payment
pay actor id s none = pure tt
pay actor id s (some p) = record_payment actor id s p

unfoldable pub is_extendable : String → HardwareActivationKey → Bool
is_extendable organization_id k =
    (k.organization_id == organization_id) && not (is_key_disabled k.status)

extend_key : ℕ → HardwareActivationKey → HardwareActivationKey
extend_key new_end_date k = record k { expires_at = some new_end_date }

-- `expiresAt: { gt: now }`, false for null
abbrev runs_after : Option ℕ → ℕ → Bool
runs_after none now = false
runs_after (some t) now = ltb now t

unfoldable pub is_revivable : String → ℕ → HardwareActivationKey → Bool
is_revivable organization_id now k =
    (k.organization_id == organization_id) && is_key_expired k.status && runs_after k.expires_at now

revive_key : HardwareActivationKey → HardwareActivationKey
revive_key k = record k { status = HardwareActivationKeyStatus.available }

extend_keys_of : String → ℕ → ℕ → Exec LicensingStore ℕ
unfolding extend_key revive_key
extend_keys_of organization_id new_end_date now = do
  extended ← gets (λ st. count (is_extendable organization_id) st.keys)
  modify (λ st. record st {
    keys = update_where (is_extendable organization_id) (extend_key new_end_date) st.keys;
  })
  modify (λ st. record st {
    keys = update_where (is_revivable organization_id now) revive_key st.keys;
  })
  pure extended

-- `input.extendKeys && subscription.organizationId`
extend_if : Bool → Option String → ℕ → ℕ → Exec LicensingStore ℕ
unfolding extend_keys_of
extend_if true (some organization_id) new_end_date now =
    extend_keys_of organization_id new_end_date now
extend_if _ _ new_end_date now = pure 0

-- the body of the transaction
renew_in : Actor → Subscription → RenewalInput → String → ℕ → Exec LicensingStore ℕ
unfolding pay extend_if
renew_in actor s input payment_id now = do
  update_subscription s.id (renewed input.new_end_date now)
  pay actor payment_id s input.payment
  extend_if input.extend_keys s.organization_id input.new_end_date now

module _ (lower : String → String) (sends : Mail → Bool) where
  recalculate_if : Option String → ℕ → Exec LicensingStore Unit
  recalculate_if none now = pure tt
  recalculate_if (some id) now = do snapshot ← recalculate_license_usage lower sends id now; pure tt

  -- The answer is the subscription as it has been renewed.
  unfoldable pub renew_subscription :
      Actor → String → RenewalInput → String → ℕ → Exec LicensingStore Subscription
  unfolding ensure_managed_if organization_concerned renew_in recalculate_if
  renew_subscription actor subscription_id input payment_id now = do
    require_super_admin actor
    found ← gets (λ st. find subscription_id st.subscriptions)
    existing ← or_raise found subscription_not_found
    concerned ← gets (organization_concerned existing)
    ensure_managed_if concerned actor
    extended ← transaction (renew_in actor existing input payment_id now)
    recalculate_if existing.organization_id now
    pure (renewed input.new_end_date now existing)

pub record OfflinePayment : Type 0 where
  pub organization_id : Option String
  pub subscription_id : Option String
  pub amount_minor : ℕ
  pub currency : Option String
  pub reference_note : Option String

unfoldable pub record_offline_payment :
    Actor → OfflinePayment → String → Exec LicensingStore PaymentTransaction
unfolding ensure_managed_if
record_offline_payment actor input id = do
  require_super_admin actor
  ensure_managed_if input.organization_id actor
  let payment : PaymentTransaction = record {
    id = id;
    organization_id = input.organization_id;
    subscription_id = input.subscription_id;
    amount_minor = input.amount_minor;
    currency = or_else input.currency "INR";
    reference_note = input.reference_note;
    recorded_by_id = actor.user_id;
  }
  modify (λ st. record st { payments = payment ∷ st.payments })
  pure payment

-- the `OR` of the query for payments
is_payment_of : Subscription → PaymentTransaction → Bool
is_payment_of s p =
    same_text p.subscription_id (some s.id)
    || elim s.organization_id [ none ↦ false | some o ↦ same_text p.organization_id (some o) ]

guard_payments : Option String → Actor → Exec LicensingStore Unit
unfolding ensure_managed_if
guard_payments none actor = require_super_admin actor
guard_payments (some id) actor = ensure_managed_if (some id) actor

-- The table is kept newest first, as the list is.
unfoldable pub list_subscription_payments :
    Actor → String → Exec LicensingStore (List PaymentTransaction)
unfolding guard_payments is_payment_of
list_subscription_payments actor subscription_id = do
  found ← gets (λ st. find subscription_id st.subscriptions)
  subscription ← or_raise found subscription_not_found
  guard_payments subscription.organization_id actor
  gets (λ st. keep (is_payment_of subscription) st.payments)
