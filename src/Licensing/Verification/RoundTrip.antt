-- ===== src/Licensing/Verification/RoundTrip.antt =====
-- A device that has been bound is verified.
use backend_softlogic.Base.{
  ℕ, String, ◌≡◌, refl, ap, subst, true, false, Option, none, some, first, arith, first_holds,
}
use backend_softlogic.Base.Exec.{ok}
use backend_softlogic.Base.Table.{find, update}
use backend_softlogic.Base.Table.Columns.{IsKeyed, find-first}
use backend_softlogic.Base.Table.Queries.{first-update_self}
use backend_softlogic.Licensing.Store.{
  HardwareActivationKey, HardwareActivation, LicensingStore, key_row, activation_row,
  subscription_row, is_key_disabled, is_activation_active,
}
use backend_softlogic.Licensing.Devices.{
  BindInput, find_key_by_text, mark_bound, is_device_of, organization_closed, is_foreign_user,
  has_expired, lacks_subscription, bind_hardware_activation,
}
use backend_softlogic.Licensing.Devices.Binding.{Admits, Bound}
use backend_softlogic.Licensing.Devices.Limit.{bind-Outcome}
use backend_softlogic.Licensing.Verification.{
  VerifyInput, Verdict, verify_key, verify_device, accept, subscription_lapsed,
  verify_hardware_activation,
}

-- what the request to bind and the request to verify share
abbrev pub same_device : BindInput → VerifyInput
same_device input = record {
  activation_key = input.activation_key;
  device_fingerprint = input.device_fingerprint;
  user_id = input.user_id;
}

not_lapsed :
    (o : Option String) (st : LicensingStore)
    → lacks_subscription o st ≡ false
    → subscription_lapsed o st ≡ false
unfolding lacks_subscription subscription_lapsed
not_lapsed none st h = absurd (cc)
not_lapsed (some id) st h = ground arith

module _ (st st' : LicensingStore) where
  foreign_same :
      (u : Option String) (o : String)
      → st'.users ≡ st.users
      → is_foreign_user u o st ≡ false
      → is_foreign_user u o st' ≡ false
  unfolding is_foreign_user
  foreign_same none o e h = refl
  foreign_same (some id) o e h = ground arith

  closed_same :
      (o : String)
      → st'.organizations ≡ st.organizations
      → organization_closed o st ≡ false
      → organization_closed o st' ≡ false
  unfolding organization_closed
  closed_same o e h = ground arith

  lapsed_same :
      (o : Option String)
      → st'.subscriptions ≡ st.subscriptions
      → subscription_lapsed o st ≡ false
      → subscription_lapsed o st' ≡ false
  unfolding subscription_lapsed
  lapsed_same none e h = refl
  lapsed_same (some id) e h = ground arith

-- what a verification at time `later` answers for the key
abbrev pub valid_for : HardwareActivationKey → ℕ → Verdict
valid_for k later = Verdict.valid (record {
  organization_id = k.organization_id;
  subscription_id = k.subscription_id;
  expires_at = k.expires_at;
  last_verified_at = some later;
})

module _ (hash : String → String) (input : BindInput) (later : ℕ) where
  accept_valid :
      (k : HardwareActivationKey) (a : HardwareActivation) (st : LicensingStore)
      → find a.id st.activations ≡ some a
      → (accept (same_device input) later k a st).0 ≡ ok (valid_for k later)
  unfolding accept
  accept_valid k a st t = ground arith

  verify_valid :
      (st : LicensingStore) (k : HardwareActivationKey) (a : HardwareActivation)
      → find_key_by_text hash input.activation_key st ≡ some k
      → is_foreign_user input.user_id k.organization_id st ≡ false
      → is_key_disabled k.status ≡ false
      → has_expired k.expires_at later ≡ false
      → first (is_device_of k.id (hash input.device_fingerprint)) st.activations ≡ some a
      → is_activation_active a.status ≡ true
      → organization_closed k.organization_id st ≡ false
      → subscription_lapsed k.subscription_id st ≡ false
      → find a.id st.activations ≡ some a
      → (verify_hardware_activation hash (same_device input) later st).0 ≡ ok (valid_for k later)
  unfolding verify_hardware_activation verify_key verify_device
  verify_valid st k a e u d x i v o s t = rw (e, u, d, x, i, v, o, s) (accept_valid k a st t)

  key_marked :
      (id : String) (st : LicensingStore) (k : HardwareActivationKey)
      → IsKeyed st.keys
      → find_key_by_text hash input.activation_key st ≡ some k
      → (st' : LicensingStore) → st'.keys ≡ update k.id (mark_bound id) st.keys
      → find_key_by_text hash input.activation_key st' ≡ some (mark_bound id k)
  unfolding find_key_by_text mark_bound
  key_marked id st k keyed e st' w =
      rw w (first-update_self _ (mark_bound id) k st.keys keyed e (first_holds _ k st.keys e))

  verify-Bound :
      (id : String) (now : ℕ) (st st' : LicensingStore) (a : HardwareActivation)
      (k : HardwareActivationKey)
      → IsKeyed st.keys
      → find_key_by_text hash input.activation_key st ≡ some k
      → has_expired k.expires_at later ≡ false
      → Admits hash input id now st k
      → Bound hash input id now st k a st'
      → (verify_hardware_activation hash (same_device input) later st').0 ≡ ok (valid_for k later)
  unfolding mark_bound
  verify-Bound id now st st' a k keys found x g b =
      let moved = b.rest in
      verify_valid st' (mark_bound a.id k) a (key_marked a.id st k keys found st' b.keys)
        (foreign_same st st' input.user_id k.organization_id
          (ap (λ (s : LicensingStore). s.users) moved) g.own_user)
        refl x b.device b.active
        (closed_same st st' k.organization_id (ap (λ (s : LicensingStore). s.organizations) moved)
          g.open_organization)
        (lapsed_same st st' k.subscription_id (ap (λ (s : LicensingStore). s.subscriptions) moved)
          (not_lapsed k.subscription_id st g.subscribed))
        (find-first _ a st'.activations b.keyed b.device)

  -- A device that has been bound with key `k` is verified as valid for the organization and the
  -- subscription of the key, at any time at which the key has not run out, if nothing else happens in
  -- between; where ids are unique and the id for a new activation is fresh.
  pub verify-bind :
      (id : String) (now : ℕ) (st st' : LicensingStore) (a : HardwareActivation)
      (k : HardwareActivationKey)
      → IsKeyed st.keys
      → IsKeyed st.activations
      → find id st.activations ≡ none
      → bind_hardware_activation hash input id now st ≡ (ok a, st')
      → find_key_by_text hash input.activation_key st ≡ some k
      → has_expired k.expires_at later ≡ false
      → (verify_hardware_activation hash (same_device input) later st').0 ≡ ok (valid_for k later)
  verify-bind id now st st' a k keys activations fresh h found x =
      let (j, g, outcome) = bind-Outcome hash input id now st st' a keys activations fresh h in
      let same : j ≡ k = let other = g.found in cc in
      verify-Bound id now st st' a k keys found x
        (subst (λ y. Admits hash input id now st y) same g)
        (subst (λ y. Bound hash input id now st y a st') same outcome.0)
