-- ===== src/Licensing/Devices/Binding.antt =====
-- What a granted request to bind a device has found, and what it has written.
use backend_softlogic.Base.{
  ℕ, ◌+◌, String, ◌≡◌, ◌≢◌, refl, inl, inr, Bool, true, false, Option, none, some, [], ◌∷◌, ◌++◌,
  eq_refl, count, first, ltb, arith, first_holds, Bool-cases, Option-cases,
}
use backend_softlogic.Base.Exec.{ok, transaction-eq-ok}
use backend_softlogic.Base.Table.{find, update, find-update_ne}
use backend_softlogic.Base.Table.Columns.{
  IsKeyed, find-first, IsKeyed-update, IsKeyed-append_one, find-append_ne,
}
use backend_softlogic.Base.Table.Queries.{
  bit, count-append_one, first-append_one, count-update, first-update_self,
}
use backend_softlogic.Licensing.Store.{
  HardwareActivationKey, HardwareActivation, LicensingStore, key_row, activation_row,
  is_key_disabled, is_activation_active,
}
use backend_softlogic.Licensing.Keys.{is_active_activation_of}
use backend_softlogic.Licensing.Devices.{
  BindInput, is_device_of, organization_closed, lacks_subscription, is_foreign_user, has_expired,
  device_limit, find_key_by_text, live_key, refuse_expired, mark_bound, refreshed, new_activation,
  rebind, bind_new, bind_device, bind_in, bind_hardware_activation,
}

module _ (hash : String → String) (input : BindInput) (id : String) (now : ℕ) where
  -- the key `k` is one that the request may use
  pub record Admits (st : LicensingStore) (k : HardwareActivationKey) : Type 0 where
    pub found : find_key_by_text hash input.activation_key st ≡ some k
    pub enabled : is_key_disabled k.status ≡ false
    pub open_organization : organization_closed k.organization_id st ≡ false
    pub subscribed : lacks_subscription k.subscription_id st ≡ false
    pub current : has_expired k.expires_at now ≡ false
    pub own_user : is_foreign_user input.user_id k.organization_id st ≡ false

  abbrev pub existing_device : LicensingStore → HardwareActivationKey → Option HardwareActivation
  existing_device st k = first (is_device_of k.id (hash input.device_fingerprint)) st.activations

  bind_key-Admits :
      (k : HardwareActivationKey) (st st' : LicensingStore) (a : HardwareActivation)
      → find_key_by_text hash input.activation_key st ≡ some k
      → bind_in hash input id now st ≡ (ok a, st')
      → Admits st k
        × (bind_device input (hash input.device_fingerprint) id now k (existing_device st k) st
            ≡ (ok a, st'))
  unfolding bind_in live_key refuse_expired
  bind_key-Admits k st st' a e h = elim (Bool-cases (is_key_disabled k.status)) [
    | inl d ↦ absurd (ground (arith, e, d))
    | inr d ↦ elim (Bool-cases (organization_closed k.organization_id st)) [
      | inl o ↦ absurd (ground (arith, e, d, o))
      | inr o ↦ elim (Bool-cases (lacks_subscription k.subscription_id st)) [
        | inl s ↦ absurd (ground (arith, e, d, o, s))
        | inr s ↦ elim (Bool-cases (has_expired k.expires_at now)) [
          | inl x ↦ elim (Option-cases (find k.id st.keys)) [
            | inl n ↦ absurd (ground (arith, e, d, o, s, x, n))
            | inr (k', n) ↦ absurd (ground (arith, e, d, o, s, x, n))
          ]
          | inr x ↦ elim (Bool-cases (is_foreign_user input.user_id k.organization_id st)) [
            | inl u ↦ absurd (ground (arith, e, d, o, s, x, u))
            | inr u ↦ (
              record {
                found = e;
                enabled = d;
                open_organization = o;
                subscribed = s;
                current = x;
                own_user = u;
              },
              ground (arith, e, d, o, s, x, u),
            )
          ]
        ]
      ]
    ]
  ]

  bind_in-Admits :
      (st st' : LicensingStore) (a : HardwareActivation)
      → bind_in hash input id now st ≡ (ok a, st')
      → (k : HardwareActivationKey) × Admits st k
        × (bind_device input (hash input.device_fingerprint) id now k (existing_device st k) st
            ≡ (ok a, st'))
  unfolding bind_in live_key
  bind_in-Admits st st' a h = elim (Option-cases (find_key_by_text hash input.activation_key st)) [
    | inl e ↦ absurd (ground (arith, e))
    | inr (k, e) ↦ let (g, r) = bind_key-Admits k st st' a e h in (k, g, r)
  ]

  pub bind-Admits :
      (st st' : LicensingStore) (a : HardwareActivation)
      → bind_hardware_activation hash input id now st ≡ (ok a, st')
      → (k : HardwareActivationKey) × Admits st k
        × (bind_device input (hash input.device_fingerprint) id now k (existing_device st k) st
            ≡ (ok a, st'))
  unfolding bind_hardware_activation
  bind-Admits st st' a h =
      bind_in-Admits st st' a (transaction-eq-ok st (bind_in hash input id now) h)

  -- the number of devices of the key that are active
  abbrev pub active_devices : LicensingStore → HardwareActivationKey → ℕ
  active_devices st k = count (is_active_activation_of k.id) st.activations

  abbrev pub was_active : Option HardwareActivation → Bool
  was_active none = false
  was_active (some a) = is_activation_active a.status

  -- the row that a binding writes: the device's own, refreshed, or a new one
  abbrev pub written_row : HardwareActivationKey → Option HardwareActivation → HardwareActivation
  written_row k none = new_activation input (hash input.device_fingerprint) id now k
  written_row k (some e) = refreshed input now e

  -- The answer `a` is the activation of the device, active: its row refreshed, or a new one. The key is
  -- marked as bound. One more device is active, unless this one was; no other activation and no other
  -- table has changed.
  pub record Bound (st : LicensingStore) (k : HardwareActivationKey) (a : HardwareActivation)
      (st' : LicensingStore) : Type 0 where
    pub device : existing_device st' k ≡ some a
    pub active : is_activation_active a.status ≡ true
    pub row : a ≡ written_row k (existing_device st k)
    pub others : (j : String) → a.id ≢ j → find j st'.activations ≡ find j st.activations
    pub counted :
        active_devices st' k + bit (was_active (existing_device st k)) ≡ active_devices st k + 1
    pub keys : st'.keys ≡ update k.id (mark_bound a.id) st.keys
    pub rest : st' ≡ record st { keys = st'.keys; activations = st'.activations }
    pub keyed : IsKeyed st'.activations

  module _ (k : HardwareActivationKey) (st : LicensingStore) (keyed : IsKeyed st.activations)
      (there : find k.id st.keys ≡ some k) (fresh : find id st.activations ≡ none) where
    pub rebind_lem :
        (e : HardwareActivation)
        → existing_device st k ≡ some e
        → let a = refreshed input now e in
          rebind input now k e st ≡ (
            ok a,
            record st {
              activations = update e.id (refreshed input now) st.activations;
              keys = update k.id (mark_bound a.id) st.keys;
            },
          )
    unfolding rebind
    rebind_lem e h =
        let found : find e.id st.activations ≡ some e = find-first _ e st.activations keyed h in
        ground (arith, found, there)

    pub rebind-Bound :
        (e : HardwareActivation)
        → existing_device st k ≡ some e
        → Bound st k (refreshed input now e) (record st {
          activations = update e.id (refreshed input now) st.activations;
          keys = update k.id (mark_bound e.id) st.keys;
        })
    unfolding refreshed
    rebind-Bound e h =
        let holds = first_holds _ e st.activations h in
        record {
          device = first-update_self _ (refreshed input now) e st.activations keyed h holds;
          active = refl;
          row = rw h refl;
          others =
              λ j ne. find-update_ne e.id j (refreshed input now) st.activations (λ x. refl) ne;
          counted =
              let found : find e.id st.activations ≡ some e =
                find-first _ e st.activations keyed h in
              let counts =
                count-update (is_active_activation_of k.id) e.id (refreshed input now) e
                  st.activations found in
              rw h (ground (arith, counts));
          keys = refl;
          rest = refl;
          keyed = IsKeyed-update e.id (refreshed input now) st.activations (λ x. refl) keyed;
        }

    pub new_lem :
        existing_device st k ≡ none
        → ltb (active_devices st k) (device_limit k) ≡ true
        → let a = new_activation input (hash input.device_fingerprint) id now k in
          bind_new input (hash input.device_fingerprint) id now k st ≡ (
            ok a,
            record st {
              activations = st.activations ++ a ∷ [];
              keys = update k.id (mark_bound a.id) st.keys;
            },
          )
    unfolding bind_new
    new_lem h l = ground (arith, there)

    pub new-Bound :
        existing_device st k ≡ none
        → let a = new_activation input (hash input.device_fingerprint) id now k in
          Bound st k a (record st {
            activations = st.activations ++ a ∷ [];
            keys = update k.id (mark_bound a.id) st.keys;
          })
    unfolding new_activation
    new-Bound h =
        let a = new_activation input (hash input.device_fingerprint) id now k in
        let here : is_device_of k.id (hash input.device_fingerprint) a ≡ true =
          rw (eq_refl k.id, eq_refl (hash input.device_fingerprint)) in
        record {
          device = first-append_one _ a st.activations h here;
          active = refl;
          row = rw h refl;
          others = λ j ne. find-append_ne j a st.activations ne;
          counted =
              let counts = count-append_one (is_active_activation_of k.id) a st.activations in
              rw h (ground (arith, counts, eq_refl k.id));
          keys = refl;
          rest = refl;
          keyed = IsKeyed-append_one a st.activations fresh keyed;
        }
