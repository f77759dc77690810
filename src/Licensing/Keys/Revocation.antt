-- ===== src/Licensing/Keys/Revocation.antt =====
-- What a revocation writes.
use backend_softlogic.Base.{ℕ, ◌≡◌, inl, inr, some, count, arith, Bool-cases}
use backend_softlogic.Base.Exec.{Result-cases, ok}
use backend_softlogic.Base.Table.{find, update, update_where}
use backend_softlogic.Base.Table.Queries.{count-update_where_none}
use backend_softlogic.Access.Roles.{Actor, is_super_admin}
use backend_softlogic.Access.Managed.{ensure_organization_managed}
use backend_softlogic.Licensing.Store.{HardwareActivationKey, LicensingStore, key_row, directory_of}
use backend_softlogic.Licensing.Keys.{
  is_active_activation_of, disable_activation, disable_key, revoke_key,
  revoke_hardware_activation_key,
}

module _ (actor : Actor) (k : HardwareActivationKey) (st : LicensingStore) where
  -- the tables after the key has been revoked
  unfoldable pub revoked : LicensingStore
  revoked = record st {
    activations = update_where (is_active_activation_of k.id) disable_activation st.activations;
    keys = update k.id disable_key st.keys;
  }

  -- A revocation that returns has counted the active devices and disabled them and the key.
  pub revoke_lem :
      (n : ℕ) (st' : LicensingStore)
      → find k.id st.keys ≡ some k
      → revoke_hardware_activation_key actor k.id st ≡ (ok n, st')
      → (n ≡ count (is_active_activation_of k.id) st.activations) × (st' ≡ revoked)
  unfolding revoke_hardware_activation_key revoke_key revoked
  revoke_lem n st' there h = elim (Bool-cases (is_super_admin actor.role)) [
    | inr a ↦ absurd (ground (arith, a))
    | inl a ↦
        elim (Result-cases
          (ensure_organization_managed (directory_of st) k.organization_id actor)) [
            | inr (e, m) ↦ absurd (ground (arith, a, there, m))
            | inl (o, m) ↦ (ground (arith, a, there, m), ground (arith, a, there, m))
          ]
  ]

  -- No device of a revoked key is active.
  pub revoked-inactive : count (is_active_activation_of k.id) revoked.activations ≡ 0
  unfolding revoked disable_activation
  revoked-inactive =
      count-update_where_none (is_active_activation_of k.id) (is_active_activation_of k.id)
        disable_activation st.activations (λ a. ground arith)
