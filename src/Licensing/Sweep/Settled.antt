-- ===== src/Licensing/Sweep/Settled.antt =====
-- What a sweep leaves.
use backend_softlogic.Base.{
  ℕ, String, ◌≡◌, refl, ◌∙◌, inl, inr, Bool, false, List, ◌∷◌, count, keep, Bool-cases,
  if◌then◌else◌,
}
use backend_softlogic.Base.Table.{update, update_where}
use backend_softlogic.Base.Table.Queries.{count-update_where_none, count-update_same}
use backend_softlogic.Licensing.Store.{
  Subscription, HardwareActivationKey, HardwareActivation, Session, LicensedUser, LicensingStore,
  Mail, subscription_row, licensed_user_row, is_usable,
}
use backend_softlogic.Licensing.Keys.{disable_activation}
use backend_softlogic.Licensing.Sweep.{
  has_lapsed, expire_subscription, expire_lapsed, set_reminder_tier, is_upcoming, is_invalid,
  invalid_subscription_ids, invalid_organization_ids, loses_key, expire_key, loses_activation,
  loses_session, revoke_session, take_back, sweep_subscriptions,
}
use backend_softlogic.Licensing.Sweep.Reminders.{each-Returns}

-- Nothing is left for a sweep at this time to expire or to take back.
pub record IsSettled (now : ℕ) (st : LicensingStore) : Type 0 where
  pub lapsed : count (has_lapsed now) st.subscriptions ≡ 0
  pub keys :
      count (loses_key (invalid_subscription_ids st) (invalid_organization_ids st)) st.keys ≡ 0
  pub activations :
      count
        (loses_activation (invalid_subscription_ids st) (invalid_organization_ids st) st.keys)
        st.activations
      ≡ 0
  pub sessions : count (loses_session (invalid_organization_ids st) st.users) st.sessions ≡ 0

-- Each of the three writes clears its own condition.
pub clears {ℓ} :
    {A : Type ℓ} (p : A → Bool) (f : A → A) (a : A)
    → p (f a) ≡ false
    → p (if p a then f a else a) ≡ false
clears p f a h = elim (Bool-cases (p a)) [ inl e ↦ rw e h | inr e ↦ rw e e ]

key_cleared :
    (ss os : List String) (k : HardwareActivationKey) → loses_key ss os (expire_key k) ≡ false
unfolding loses_key expire_key is_usable
key_cleared ss os k = refl

activation_cleared :
    (ss os : List String) (ks : List HardwareActivationKey) (a : HardwareActivation)
    → loses_activation ss os ks (disable_activation a) ≡ false
unfolding loses_activation disable_activation
activation_cleared ss os ks a = refl

session_cleared :
    (os : List String) (us : List LicensedUser) (now : ℕ) (s : Session)
    → loses_session os us (revoke_session now s) ≡ false
unfolding loses_session revoke_session
session_cleared os us now s = refl

lapse_cleared : (now : ℕ) (s : Subscription) → has_lapsed now (expire_subscription now s) ≡ false
unfolding has_lapsed expire_subscription
lapse_cleared now s = refl

take_back-IsSettled :
    (now : ℕ) (st : LicensingStore)
    → count (has_lapsed now) st.subscriptions ≡ 0
    → IsSettled now (take_back now st).1
unfolding take_back invalid_subscription_ids invalid_organization_ids is_invalid
take_back-IsSettled now st h =
    let ss = invalid_subscription_ids st in
    let os = invalid_organization_ids st in
    let ks = update_where (loses_key ss os) expire_key st.keys in
    record {
      lapsed = h;
      keys =
          count-update_where_none _ (loses_key ss os) expire_key st.keys
            (λ k. clears (loses_key ss os) expire_key k (key_cleared ss os k));
      activations =
          count-update_where_none _ (loses_activation ss os ks) disable_activation st.activations
            (λ a.
              clears (loses_activation ss os ks) disable_activation a
                (activation_cleared ss os ks a));
      sessions =
          count-update_where_none _ (loses_session os st.users) (revoke_session now) st.sessions
            (λ s.
              clears (loses_session os st.users) (revoke_session now) s
                (session_cleared os st.users now s));
    }

module _ (lower : String → String) (sends : Mail → Bool) (now : ℕ) where
  abbrev pub expired : LicensingStore → LicensingStore
  expired st = record st {
    subscriptions = update_where (has_lapsed now) (expire_subscription now) st.subscriptions;
  }

  -- Of `P`, which mails and tiers keep, the tables at the start of the last step have it.
  pub sweep_then :
      (P : LicensingStore → Type 0)
      → ((m : Mail) (st : LicensingStore) → P st → P (record st { outbox = m ∷ st.outbox }))
      → ((id : String) (tier : ℕ) (st : LicensingStore)
          → P st
          → P (record st {
            subscriptions = update id (set_reminder_tier tier now) st.subscriptions;
          }))
      → (st : LicensingStore) → P (expired st)
      → (st₁ : LicensingStore) × P st₁
        × ((sweep_subscriptions lower sends now st).1 ≡ (take_back now st₁).1)
  unfolding sweep_subscriptions expire_lapsed take_back
  sweep_then P mailed reminded st h =
      let (n, st₁, e, h₁) =
        each-Returns lower sends now P mailed reminded
          (keep (is_upcoming now) (expired st).subscriptions) (expired st) h in
      (st₁, h₁, rw e refl)

  -- After a sweep, whatever the mail transport does, no active subscription has ended, and no usable key,
  -- active device or open session belongs to what is invalid: a sweep at the same time would expire and
  -- take back nothing.
  pub sweep-IsSettled :
      (st : LicensingStore) → IsSettled now (sweep_subscriptions lower sends now st).1
  unfolding set_reminder_tier has_lapsed
  sweep-IsSettled st =
      let (st₁, h, e) =
        sweep_then (λ s. count (has_lapsed now) s.subscriptions ≡ 0) (λ m s h. h)
          (λ id tier s h.
            count-update_same (has_lapsed now) id (set_reminder_tier tier now) s.subscriptions
              (λ a. refl)
            ∙ h)
          st
          (count-update_where_none (has_lapsed now) (has_lapsed now) (expire_subscription now)
            st.subscriptions
            (λ s. clears (has_lapsed now) (expire_subscription now) s (lapse_cleared now s))) in
      rw e (take_back-IsSettled now st₁ h)
