-- ===== src/Licensing/Sweep/Organizations.antt =====
-- What a sweep takes back from an organization that has had a subscription.
use backend_softlogic.Base.{
  ℕ, String, ◌≡◌, refl, ◌∙◌, inl, inr, Bool, true, false, not, ◌&&◌, ◌||◌, none, some, List, [],
  ◌∷◌, ◌==◌, eq_iff, eq_refl, any, count, keep, includes, is_some, same_text, same_text_iff, arith,
  Option-cases, Bool-cases, if◌then◌else◌,
}
use backend_softlogic.Base.Table.{find, update, update_where}
use backend_softlogic.Base.Table.Queries.{count-update_where_none}
use backend_softlogic.Licensing.Store.{
  Subscription, HardwareActivationKey, HardwareActivation, Session, LicensedUser, LicensingStore,
  Mail, subscription_row, licensed_user_row, is_usable, is_activation_active,
}
use backend_softlogic.Licensing.Keys.{disable_activation}
use backend_softlogic.Licensing.Sweep.{
  has_lapsed, expire_subscription, set_reminder_tier, is_ended, is_invalid,
  invalid_subscription_ids, organization_ids_of, invalid_organization_ids, loses_key, expire_key,
  loses_activation, user_lost, loses_session, revoke_session, take_back, sweep_subscriptions,
}
use backend_softlogic.Licensing.Sweep.Settled.{sweep_then}

-- the subscription is one of the organization, and it has ended or ends with this sweep
abbrev pub ends_here : ℕ → String → Subscription → Bool
ends_here now o s = same_text s.organization_id (some o) && (is_ended s.status || has_lapsed now s)

abbrev has_ended : String → Subscription → Bool
has_ended o s = same_text s.organization_id (some o) && is_ended s.status

ended-invalid :
    (st : LicensingStore) (o : String) (subs : List Subscription)
    → any (has_ended o) subs ≡ true
    → includes o (organization_ids_of (keep (is_invalid st) subs)) ≡ true
unfolding organization_ids_of is_invalid
ended-invalid st o [] h = absurd (cc)
ended-invalid st o (s ∷ ss) h =
    ground (arith, same_text_iff s.organization_id (some o), eq_refl o, ended-invalid st o ss)

any-expired :
    (now : ℕ) (o : String) (subs : List Subscription)
    → any (ends_here now o) subs ≡ true
    → any (has_ended o) (update_where (has_lapsed now) (expire_subscription now) subs) ≡ true
unfolding expire_subscription is_ended
any-expired now o [] h = absurd (cc)
any-expired now o (s ∷ ss) h = ground (arith, any-expired now o ss)

any-reminded :
    (o id : String) (tier now : ℕ) (subs : List Subscription)
    → any (has_ended o) (update id (set_reminder_tier tier now) subs) ≡ any (has_ended o) subs
unfolding update set_reminder_tier
any-reminded o id tier now [] = refl
any-reminded o id tier now (s ∷ ss) = ground (arith, any-reminded o id tier now ss)

-- a usable key, an active device, an open session of the organization
abbrev pub usable_key_of : String → HardwareActivationKey → Bool
usable_key_of o k = is_usable k.status && (k.organization_id == o)

abbrev pub active_device_of : String → HardwareActivation → Bool
active_device_of o a = is_activation_active a.status && (a.organization_id == o)

abbrev pub is_user_of : String → List LicensedUser → String → Bool
is_user_of o users id = elim (find id users) [
  | none ↦ false
  | some u ↦ same_text u.row.primary_organization_id (some o)
]

abbrev pub open_session_of : String → List LicensedUser → Session → Bool
open_session_of o users s = not (is_some s.revoked_at) && is_user_of o users s.user_id

module _ (o : String) (ss os : List String) (listed : includes o os ≡ true) where
  key_taken :
      (k : HardwareActivationKey)
      → usable_key_of o (if loses_key ss os k then expire_key k else k) ≡ false
  unfolding loses_key expire_key is_usable
  key_taken k = ground (arith, eq_iff k.organization_id o)

  activation_taken :
      (ks : List HardwareActivationKey) (a : HardwareActivation)
      → active_device_of o (if loses_activation ss os ks a then disable_activation a else a) ≡ false
  unfolding loses_activation disable_activation
  activation_taken ks a = ground (arith, eq_iff a.organization_id o)

  user_listed :
      (users : List LicensedUser) (id : String)
      → is_user_of o users id ≡ true
      → user_lost os users id ≡ true
  unfolding user_lost
  user_listed users id h = elim (Option-cases (find id users)) [
    | inl e ↦ absurd (ground (arith, e))
    | inr (u, e) ↦ ground (arith, e, same_text_iff u.row.primary_organization_id (some o))
  ]

  session_taken :
      (users : List LicensedUser) (now : ℕ) (s : Session)
      → open_session_of o users (if loses_session os users s then revoke_session now s else s)
        ≡ false
  unfolding loses_session revoke_session
  session_taken users now s = elim (Bool-cases (is_user_of o users s.user_id)) [
    | inl u ↦ let lost = user_listed users s.user_id u in ground (arith, u, lost)
    | inr n ↦ ground (arith, n)
  ]

-- The organization has no usable key, no active device and no open session.
pub record IsCutOff (o : String) (st : LicensingStore) : Type 0 where
  pub keys : count (usable_key_of o) st.keys ≡ 0
  pub devices : count (active_device_of o) st.activations ≡ 0
  pub sessions : count (open_session_of o st.users) st.sessions ≡ 0

take_back-IsCutOff :
    (now : ℕ) (o : String) (st : LicensingStore)
    → includes o (invalid_organization_ids st) ≡ true
    → IsCutOff o (take_back now st).1
unfolding take_back
take_back-IsCutOff now o st listed =
    let ss = invalid_subscription_ids st in
    let os = invalid_organization_ids st in
    let ks = update_where (loses_key ss os) expire_key st.keys in
    record {
      keys =
          count-update_where_none (usable_key_of o) (loses_key ss os) expire_key st.keys
            (key_taken o ss os listed);
      devices =
          count-update_where_none (active_device_of o) (loses_activation ss os ks)
            disable_activation st.activations (activation_taken o ss os listed ks);
      sessions =
          count-update_where_none (open_session_of o st.users) (loses_session os st.users)
            (revoke_session now) st.sessions (session_taken o ss os listed st.users now);
    }

-- After a sweep, an organization of which any subscription has ended or is ended by this sweep is cut
-- off, whatever its other subscriptions are: it has no usable key, no active device and no open session
-- of its users.
pub sweep-IsCutOff :
    (lower : String → String) (sends : Mail → Bool) (now : ℕ) (o : String) (st : LicensingStore)
    → any (ends_here now o) st.subscriptions ≡ true
    → IsCutOff o (sweep_subscriptions lower sends now st).1
unfolding invalid_organization_ids
sweep-IsCutOff lower sends now o st h =
    let (st₁, ended, e) =
      sweep_then lower sends now (λ s. any (has_ended o) s.subscriptions ≡ true) (λ m s k. k)
        (λ id tier s k. any-reminded o id tier now s.subscriptions ∙ k) st
        (any-expired now o st.subscriptions h) in
    rw e (take_back-IsCutOff now o st₁ (ended-invalid st₁ o st₁.subscriptions ended))
