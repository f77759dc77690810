-- ===== src/Licensing/Sweep.antt =====
-- `sweepSubscriptions`: what lapsed is expired, reminders go out, and the keys, activations and sessions
-- of what is no longer valid are taken back.
pub mod Reminders
pub mod Settled
pub mod Organizations
pub mod Tiers
use backend_softlogic.Base.{
  ℕ, ◌+◌, ◌-◌, ◌*◌, ◌/◌, String, Bool, true, false, not, ◌&&◌, ◌||◌, Option, none, some, List, [],
  ◌∷◌, map, ◌==◌, any, count, first, includes, keep, length, leb, ltb, is_some, same_text,
  if◌then◌else◌,
}
use backend_softlogic.Base.Int.{ℤ, pos, negsuc, neg_ℤ, ◌-ℤ◌, leb_ℤ, clamp_ℤ, pos_part}
use backend_softlogic.Base.Exec.{Exec, pure, gets, modify, try_catch, ◌>>=◌, ◌>>◌}
use backend_softlogic.Base.Table.{find, update_where}
use backend_softlogic.Licensing.Store.{
  Subscription, SubscriptionStatus, HardwareActivationKey, HardwareActivationKeyStatus,
  HardwareActivation, HardwareActivationStatus, Session, LicensedOrganization, LicensedUser,
  LicensingStore, Mail, subscription_row, key_row, licensed_organization_row, licensed_user_row,
  is_usable, is_activation_active, update_subscription, send,
}
use backend_softlogic.Licensing.Admission.{is_closed}
use backend_softlogic.Licensing.Keys.{disable_activation}
use backend_softlogic.Licensing.Seats.{get_organization_admin_recipients, send_each}

-- `DAY_MS`
abbrev pub day_ms : ℕ
day_ms = 24 * 60 * 60 * 1000

-- `EXPIRY_REMINDER_TIERS`
abbrev pub expiry_reminder_tiers : List ℕ
expiry_reminder_tiers = 30 ∷ 14 ∷ 7 ∷ 0 ∷ []

reached_tier : ℤ → List ℕ → Option ℕ → Option ℕ
reached_tier days_left [] tier = tier
reached_tier days_left (candidate ∷ candidates) tier =
    reached_tier days_left candidates
      (if leb_ℤ days_left (pos candidate) then some candidate else tier)

unfoldable pub current_expiry_tier : ℤ → Option ℕ
unfolding reached_tier
current_expiry_tier days_left = reached_tier days_left expiry_reminder_tiers none

-- `Math.ceil((date - now) / DAY_MS)`: rounded up, also below zero.
unfoldable pub days_until : ℕ → ℕ → ℤ
days_until date now =
    if leb now date
    then pos ((date - now + (day_ms - 1)) / day_ms)
    else neg_ℤ (pos ((now - date) / day_ms))

abbrev pub is_status_active : SubscriptionStatus → Bool
is_status_active SubscriptionStatus.active = true
is_status_active _ = false

-- `endDate: { not: null, lt: now }`
abbrev ended_before : Option ℕ → ℕ → Bool
ended_before none now = false
ended_before (some t) now = ltb t now

unfoldable pub has_lapsed : ℕ → Subscription → Bool
has_lapsed now s = is_status_active s.status && ended_before s.end_date now

unfoldable pub expire_subscription : ℕ → Subscription → Subscription
expire_subscription now s = record s { status = SubscriptionStatus.expired; updated_at = now }

unfoldable pub expire_lapsed : ℕ → Exec LicensingStore ℕ
unfolding expire_subscription
expire_lapsed now = do
  lapsed ← gets (λ st. count (has_lapsed now) st.subscriptions)
  modify (λ st. record st {
    subscriptions = update_where (has_lapsed now) (expire_subscription now) st.subscriptions;
  })
  pure lapsed

-- `endDate: { not: null, lte: horizon }`, for the largest tier, 30, and one day
abbrev ends_by : Option ℕ → ℕ → Bool
ends_by none horizon = false
ends_by (some t) horizon = leb t horizon

unfoldable pub is_upcoming : ℕ → Subscription → Bool
is_upcoming now s = is_status_active s.status && ends_by s.end_date (now + 31 * day_ms)

-- `stored !== null && tier >= stored`
unfoldable pub already_reminded : Option ℕ → ℕ → Bool
already_reminded none tier = false
already_reminded (some stored) tier = leb stored tier

unfoldable pub set_reminder_tier : ℕ → ℕ → Subscription → Subscription
set_reminder_tier tier now s = record s { expiry_reminder_tier = some tier; updated_at = now }

module _ (lower : String → String) (sends : Mail → Bool) where
  remind_admins : ℕ → ℤ → Option LicensedOrganization → Exec LicensingStore Unit
  unfolding send_each
  remind_admins end_date days_left none = pure tt
  remind_admins end_date days_left (some organization) = do
    recipients ← gets (get_organization_admin_recipients lower organization.row.id)
    send_each sends
        (λ (u : LicensedUser).
          Mail.subscription_expiry u.email organization.name end_date
            (pos_part (clamp_ℤ days_left)))
        recipients

  -- the number of reminders: a subscription counts once its mails are out and its tier is stored
  remind_tier : ℕ → Subscription → String → ℕ → ℤ → Option ℕ → Exec LicensingStore ℕ
  unfolding remind_admins set_reminder_tier
  remind_tier now s organization_id end_date days_left none = pure 0
  remind_tier now s organization_id end_date days_left (some tier) =
      if already_reminded s.expiry_reminder_tier tier then pure 0 else do
        organization ← gets (λ st. find organization_id st.organizations)
        remind_admins end_date days_left organization
        update_subscription s.id (set_reminder_tier tier now)
        pure 1

  remind_dated : ℕ → Subscription → Option String → Option ℕ → Exec LicensingStore ℕ
  unfolding remind_tier
  remind_dated now s (some organization_id) (some end_date) =
      remind_tier now s organization_id end_date (days_until end_date now)
        (current_expiry_tier (days_until end_date now))
  remind_dated now s _ _ = pure 0

  unfoldable pub remind_one : ℕ → Subscription → Exec LicensingStore ℕ
  unfolding remind_dated
  remind_one now s = try_catch (remind_dated now s s.organization_id s.end_date) (λ _. pure 0)

  unfoldable pub remind_each : ℕ → List Subscription → Exec LicensingStore ℕ
  remind_each now [] = pure 0
  remind_each now (s ∷ ss) = do
    sent ← remind_one now s
    more ← remind_each now ss
    pure (sent + more)

-- the `OR` of the query for invalid subscriptions
unfoldable pub is_ended : SubscriptionStatus → Bool
is_ended SubscriptionStatus.expired = true
is_ended SubscriptionStatus.canceled = true
is_ended _ = false

organization_invalid : LicensingStore → Option String → Bool
organization_invalid st none = false
organization_invalid st (some id) = elim (find id st.organizations) [
  | none ↦ false
  | some o ↦ is_closed o
]

unfoldable pub is_invalid : LicensingStore → Subscription → Bool
unfolding organization_invalid
is_invalid st s =
    is_ended s.status || is_some s.deleted_at || organization_invalid st s.organization_id

unfoldable pub invalid_subscription_ids : LicensingStore → List String
invalid_subscription_ids st =
    map (λ (s : Subscription). s.id) (keep (is_invalid st) st.subscriptions)

-- `.map(organizationId).filter(Boolean)`: as a set, of which only the members count
unfoldable pub organization_ids_of : List Subscription → List String
organization_ids_of [] = []
organization_ids_of (s ∷ ss) = elim s.organization_id [
  | none ↦ organization_ids_of ss
  | some o ↦ o ∷ organization_ids_of ss
]

unfoldable pub invalid_organization_ids : LicensingStore → List String
invalid_organization_ids st = organization_ids_of (keep (is_invalid st) st.subscriptions)

abbrev pub some_in : Option String → List String → Bool
some_in none ids = false
some_in (some id) ids = includes id ids

-- `hardwareWhere`
unfoldable pub loses_key : List String → List String → HardwareActivationKey → Bool
loses_key subscription_ids organization_ids k =
    is_usable k.status
    && (some_in k.subscription_id subscription_ids || includes k.organization_id organization_ids)

expire_key : HardwareActivationKey → HardwareActivationKey
expire_key k = record k { status = HardwareActivationKeyStatus.expired; bound_activation_id = none }

-- `activationKey: { subscriptionId: { in: invalidSubscriptionIds } }`
key_lost : List String → List HardwareActivationKey → String → Bool
key_lost subscription_ids keys key_id = elim (find key_id keys) [
  | none ↦ false
  | some k ↦ some_in k.subscription_id subscription_ids
]

-- `activationWhere`
unfoldable pub loses_activation :
    List String → List String → List HardwareActivationKey → HardwareActivation → Bool
unfolding key_lost
loses_activation subscription_ids organization_ids keys a =
    is_activation_active a.status
    && (key_lost subscription_ids keys a.activation_key_id
        || includes a.organization_id organization_ids)

user_lost : List String → List LicensedUser → String → Bool
user_lost organization_ids users user_id = elim (find user_id users) [
  | none ↦ false
  | some u ↦ some_in u.row.primary_organization_id organization_ids
]

unfoldable pub loses_session : List String → List LicensedUser → Session → Bool
unfolding user_lost
loses_session organization_ids users s =
    not (is_some s.revoked_at) && user_lost organization_ids users s.user_id

revoke_session : ℕ → Session → Session
revoke_session now s = record s { refresh_token = none; revoked_at = some now }

pub record Losses : Type 0 where
  pub keys_expired : ℕ
  pub activations_disabled : ℕ
  pub sessions_revoked : ℕ

-- With no invalid subscription the three queries match no row.
unfoldable pub take_back : ℕ → Exec LicensingStore Losses
unfolding expire_key disable_activation revoke_session
take_back now = do
  subscription_ids ← gets invalid_subscription_ids
  organization_ids ← gets invalid_organization_ids
  lost_keys ← gets (λ st. count (loses_key subscription_ids organization_ids) st.keys)
  modify (λ st. record st {
    keys = update_where (loses_key subscription_ids organization_ids) expire_key st.keys;
  })
  lost_activations ←
      gets (λ st. count (loses_activation subscription_ids organization_ids st.keys) st.activations)
  modify (λ st. record st {
    activations =
        update_where (loses_activation subscription_ids organization_ids st.keys) disable_activation
          st.activations;
  })
  lost_sessions ← gets (λ st. count (loses_session organization_ids st.users) st.sessions)
  modify (λ st. record st {
    sessions =
        update_where (loses_session organization_ids st.users) (revoke_session now) st.sessions;
  })
  pure (record {
    keys_expired = lost_keys;
    activations_disabled = lost_activations;
    sessions_revoked = lost_sessions;
  })

pub record SweepSummary : Type 0 where
  pub expired : ℕ
  pub reminders_sent : ℕ
  pub checked : ℕ
  pub losses : Losses

module _ (lower : String → String) (sends : Mail → Bool) where
  unfoldable pub sweep_subscriptions : ℕ → Exec LicensingStore SweepSummary
  sweep_subscriptions now = do
    expired ← expire_lapsed now
    upcoming ← gets (λ st. keep (is_upcoming now) st.subscriptions)
    reminders ← remind_each lower sends now upcoming
    losses ← take_back now
    pure (record {
      expired = expired;
      reminders_sent = reminders;
      checked = length upcoming;
      losses = losses;
    })
