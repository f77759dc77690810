-- ===== src/Licensing/Devices/Limit.antt =====
-- The limit of devices of a key, and keys that have run out.
use backend_softlogic.Base.{
  ℕ, ◌+◌, ◌≤◌, String, ◌≡◌, ◌≢◌, refl, inl, inr, true, false, Option, none, some, is_some, ltb, ◌⊎◌,
  arith, Bool-cases,
}
use backend_softlogic.Base.Exec.{ok, err, ok_transport}
use backend_softlogic.Base.Failure.{activation_key_expired, invalid_activation_key}
use backend_softlogic.Base.Table.{find, update}
use backend_softlogic.Base.Table.Columns.{IsKeyed, find-first}
use backend_softlogic.Licensing.Store.{
  HardwareActivationKey, HardwareActivation, LicensingStore, key_row, activation_row,
  is_key_disabled, is_activation_active,
}
use backend_softlogic.Licensing.Devices.{
  BindInput, organization_closed, lacks_subscription, has_expired, device_limit, find_key_by_text,
  live_key, refuse_expired, bind_device, bind_new, refreshed, mark_bound, bind_in,
  bind_hardware_activation,
}
use backend_softlogic.Licensing.Devices.Binding.{
  Admits, Bound, existing_device, active_devices, bind-Admits, rebind_lem, rebind-Bound, new_lem,
  new-Bound,
}

module _ (hash : String → String) (input : BindInput) (id : String) (now : ℕ) where
  -- the outcome of a binding on key `k`
  abbrev pub Outcome :
      LicensingStore → HardwareActivationKey → HardwareActivation → LicensingStore → Type 0
  Outcome st k a st' =
      Bound hash input id now st k a st'
      × ((is_some (existing_device hash input id now st k) ≡ true)
          ⊎ (active_devices hash input id now st' k ≤ device_limit k))

  bind_new-full :
      (k : HardwareActivationKey) (st st' : LicensingStore) (a : HardwareActivation)
      → ltb (active_devices hash input id now st k) (device_limit k) ≡ false
      → bind_new input (hash input.device_fingerprint) id now k st ≢ (ok a, st')
  unfolding bind_new
  bind_new-full k st st' a l r = ground arith

  bind_device-Outcome :
      (k : HardwareActivationKey) (st st' : LicensingStore) (a : HardwareActivation)
      → IsKeyed st.activations
      → find k.id st.keys ≡ some k
      → find id st.activations ≡ none
      → (o : Option HardwareActivation) → existing_device hash input id now st k ≡ o
      → bind_device input (hash input.device_fingerprint) id now k o st ≡ (ok a, st')
      → Outcome st k a st'
  unfolding bind_device
  bind_device-Outcome k st st' a keyed there fresh (some e) h r =
      ok_transport (Outcome st k) (rebind_lem hash input id now k st keyed there fresh e h) r
        (rebind-Bound hash input id now k st keyed there fresh e h, inl (rw h refl))
  bind_device-Outcome k st st' a keyed there fresh none h r =
      elim (Bool-cases (ltb (active_devices hash input id now st k) (device_limit k))) [
        | inl l ↦
            let b = new-Bound hash input id now k st keyed there fresh h in
            ok_transport (Outcome st k) (new_lem hash input id now k st keyed there fresh h l) r
              (b, inr (let c = b.counted in ground (arith, h, c)))
        | inr l ↦ absurd (bind_new-full k st st' a l r)
      ]

  key_there :
      (st : LicensingStore) (k : HardwareActivationKey)
      → IsKeyed st.keys
      → find_key_by_text hash input.activation_key st ≡ some k
      → find k.id st.keys ≡ some k
  unfolding find_key_by_text
  key_there st k keys e = find-first _ k st.keys keys e

  -- A granted request has found a key that is enabled and current, of an open organization and a
  -- subscription in force, and a user of that organization if it names one. Where ids are unique and the new one is fresh, the
  -- device's activation is then the answer and active, its row refreshed or a new one, the key is marked
  -- as bound, one more device of the key is active, or as many if this one was, and no other activation
  -- and no other table has changed; a device that is new to the key leaves no more active ones than the
  -- key's limit.
  pub bind-Outcome :
      (st st' : LicensingStore) (a : HardwareActivation)
      → IsKeyed st.keys
      → IsKeyed st.activations
      → find id st.activations ≡ none
      → bind_hardware_activation hash input id now st ≡ (ok a, st')
      → (k : HardwareActivationKey) × Admits hash input id now st k × Outcome st k a st'
  bind-Outcome st st' a keys activations fresh h =
      let (k, g, r) = bind-Admits hash input id now st st' a h in
      let there = key_there st k keys g.found in
      (
        k,
        g,
        bind_device-Outcome k st st' a activations there fresh
            (existing_device hash input id now st k) refl r,
      )

  -- A device whose activation has been reset or disabled is bound again whatever the key's limit says:
  -- where ids are unique and the request is otherwise in order, it is granted, and one more device of
  -- the key is active than before.
  pub rebind_ignores_limit :
      (st : LicensingStore) (k : HardwareActivationKey) (e : HardwareActivation)
      → IsKeyed st.keys
      → IsKeyed st.activations
      → find id st.activations ≡ none
      → Admits hash input id now st k
      → existing_device hash input id now st k ≡ some e
      → is_activation_active e.status ≡ false
      → (a : HardwareActivation) × (st' : LicensingStore) × (bind_hardware_activation hash input id
            now st
          ≡ (ok a, st'))
        × (active_devices hash input id now st' k ≡ active_devices hash input id now st k + 1)
  unfolding bind_hardware_activation bind_in live_key bind_device refuse_expired
  rebind_ignores_limit st k e keys activations fresh g h idle =
      let there = key_there st k keys g.found in
      let b = rebind-Bound hash input id now k st activations there fresh e h in
      let c = b.counted in
      let run = rebind_lem hash input id now k st activations there fresh e h in
      (
        refreshed input now e,
        record st {
          activations = update e.id (refreshed input now) st.activations;
          keys = update k.id (mark_bound e.id) st.keys;
        },
        rw (g.found, g.enabled, g.open_organization, g.subscribed, g.current, g.own_user, h, run),
        ground (arith, h, idle, c),
      )

  -- A key that has run out is refused with 410, and the mark `EXPIRED` that the request writes is
  -- undone with its transaction: where ids are unique, no table has changed.
  pub bind_expired-unmarked :
      (st : LicensingStore) (k : HardwareActivationKey)
      → IsKeyed st.keys
      → find_key_by_text hash input.activation_key st ≡ some k
      → is_key_disabled k.status ≡ false
      → organization_closed k.organization_id st ≡ false
      → lacks_subscription k.subscription_id st ≡ false
      → has_expired k.expires_at now ≡ true
      → bind_hardware_activation hash input id now st ≡ (err activation_key_expired, st)
  unfolding bind_hardware_activation bind_in live_key refuse_expired find
  bind_expired-unmarked st k keys e d o s x =
      let there = key_there st k keys e in rw (e, d, o, s, x, there)

  -- A disabled key binds nothing.
  pub bind-disabled :
      (st : LicensingStore) (k : HardwareActivationKey)
      → find_key_by_text hash input.activation_key st ≡ some k
      → is_key_disabled k.status ≡ true
      → bind_hardware_activation hash input id now st ≡ (err invalid_activation_key, st)
  unfolding bind_hardware_activation bind_in live_key
  bind-disabled st k e d = rw (e, d) refl
