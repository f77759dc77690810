-- ===== src/Licensing/Verification/Revoked.antt =====
-- A revoked key is good for nothing.
use backend_softlogic.Base.{
  ℕ, String, ◌≡◌, refl, ◌⊎◌, inl, inr, true, some, count, first_holds, Bool-cases,
}
use backend_softlogic.Base.Exec.{ok, err}
use backend_softlogic.Base.Failure.{invalid_activation_key}
use backend_softlogic.Base.Table.{find}
use backend_softlogic.Base.Table.Columns.{IsKeyed, find-first}
use backend_softlogic.Base.Table.Queries.{first-update_self}
use backend_softlogic.Access.Roles.{Actor}
use backend_softlogic.Licensing.Store.{
  HardwareActivationKey, LicensingStore, key_row, is_key_disabled,
}
use backend_softlogic.Licensing.Keys.{
  is_active_activation_of, disable_key, revoke_hardware_activation_key,
}
use backend_softlogic.Licensing.Keys.Revocation.{revoked, revoke_lem, revoked-inactive}
use backend_softlogic.Licensing.Devices.{
  BindInput, find_key_by_text, is_foreign_user, bind_hardware_activation,
}
use backend_softlogic.Licensing.Devices.Limit.{bind-disabled}
use backend_softlogic.Licensing.Verification.{
  Verdict, Reason, verify_key, verify_hardware_activation,
}
use backend_softlogic.Licensing.Verification.RoundTrip.{same_device}

module _ (hash : String → String) (input : BindInput) where
  found_revoked :
      (actor : Actor) (k : HardwareActivationKey) (st : LicensingStore)
      → IsKeyed st.keys
      → find_key_by_text hash input.activation_key st ≡ some k
      → find_key_by_text hash input.activation_key (revoked actor k st) ≡ some (disable_key k)
  unfolding find_key_by_text revoked disable_key
  found_revoked actor k st keys e =
      first-update_self _ disable_key k st.keys keys e (first_holds _ k st.keys e)

  key_there :
      (k : HardwareActivationKey) (st : LicensingStore)
      → IsKeyed st.keys
      → find_key_by_text hash input.activation_key st ≡ some k
      → find k.id st.keys ≡ some k
  unfolding find_key_by_text
  key_there k st keys e = find-first _ k st.keys keys e

  verify_disabled :
      (now : ℕ) (st : LicensingStore) (k : HardwareActivationKey)
      → find_key_by_text hash input.activation_key st ≡ some k
      → is_key_disabled k.status ≡ true
      → ((verify_hardware_activation hash (same_device input) now st).0
          ≡ ok (Verdict.invalid Reason.organization_mismatch))
        ⊎ ((verify_hardware_activation hash (same_device input) now st).0
            ≡ ok (Verdict.invalid Reason.disabled))
  unfolding verify_hardware_activation verify_key
  verify_disabled now st k e d =
      elim (Bool-cases (is_foreign_user input.user_id k.organization_id st)) [
        | inl u ↦ inl (rw (e, u) refl)
        | inr u ↦ inr (rw (e, u, d) refl)
      ]

  -- After a revocation that returns, which counts the devices that were active, no device of the key is
  -- active, a request to bind a device with the key is refused with 404 and changes nothing, and
  -- a verification with it answers that the key is disabled or of another organization; where the ids
  -- of keys are unique.
  pub revoke-useless :
      (actor : Actor) (k : HardwareActivationKey) (st st' : LicensingStore) (n : ℕ) (id : String)
      (now : ℕ)
      → IsKeyed st.keys
      → find_key_by_text hash input.activation_key st ≡ some k
      → revoke_hardware_activation_key actor k.id st ≡ (ok n, st')
      → (n ≡ count (is_active_activation_of k.id) st.activations)
        × (count (is_active_activation_of k.id) st'.activations ≡ 0)
        × (bind_hardware_activation hash input id now st' ≡ (err invalid_activation_key, st'))
        × (((verify_hardware_activation hash (same_device input) now st').0
              ≡ ok (Verdict.invalid Reason.organization_mismatch))
            ⊎ ((verify_hardware_activation hash (same_device input) now st').0
                ≡ ok (Verdict.invalid Reason.disabled)))
  unfolding disable_key
  revoke-useless actor k st st' n id now keys e h =
      let (counted, after) = revoke_lem actor k st n st' (key_there k st keys e) h in
      let found = found_revoked actor k st keys e in
      (
        counted,
        rw after (revoked-inactive actor k st),
        rw after (bind-disabled hash input id now (revoked actor k st) (disable_key k) found refl),
        rw after (verify_disabled now (revoked actor k st) (disable_key k) found refl),
      )
