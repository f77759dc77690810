-- ===== src/Licensing/Keys/Bulk.antt =====
-- What a bulk creation adds, up to the first row that fails.
use backend_softlogic.Base.{
  ℕ, ◌+◌, ◌≤◌, String, ◌≡◌, ◌⊎◌, true, false, Option, some, List, [], ◌∷◌, ◌++◌, ◌==◌, any, all,
  if◌then◌else◌,
}
use backend_softlogic.Base.Exec.{Result, ok, err}
use backend_softlogic.Base.Failure.{Failure, foreign_key_violation}
use backend_softlogic.Base.Table.{find}
use backend_softlogic.Access.Roles.{Actor, is_super_admin}
use backend_softlogic.Access.Directory.{Organization}
use backend_softlogic.Access.Managed.{ensure_organization_managed}
use backend_softlogic.Licensing.Store.{
  Subscription, HardwareActivationKey, LicensedUser, LicensingStore, subscription_row, key_row,
  licensed_organization_row, directory_of,
}
use backend_softlogic.Licensing.Keys.{
  KeyInput, Draw, usable_count, new_key, has_users, resolve_key_subscription,
  bulk_create_hardware_activation_keys,
}

module _ (hash encrypt : String → String) (actor : Actor) (organization_id : String)
    (sub : Option String) where
  -- the key for a row, for subscription `s`
  abbrev key_of : Subscription → KeyInput → Draw → HardwareActivationKey
  key_of s input draw =
      new_key hash encrypt actor organization_id (record input { subscription_id = sub }) draw s

  -- the keys for some rows
  pub new_keys : Subscription → List (KeyInput × Draw) → List HardwareActivationKey
  new_keys s [] = []
  new_keys s ((input, draw) ∷ rest) = key_of s input draw ∷ new_keys s rest

  -- the rows before the first one whose users are not all there
  pub known_rows :
      Subscription → List LicensedUser → List (KeyInput × Draw) → List (KeyInput × Draw)
  known_rows s users [] = []
  known_rows s users ((input, draw) ∷ rest) =
      let before = known_rows s users rest in
      if has_users (key_of s input draw) users then (input, draw) ∷ before else []

  -- the answer once the loop is reached: all keys, if the users of all rows are there
  pub loop_answer :
      Subscription
      → List LicensedUser
      → List (KeyInput × Draw)
      → Result (List HardwareActivationKey)
  unfolding new_keys
  loop_answer s users rows =
      if all (λ (r : KeyInput × Draw). has_users (key_of s r.0 r.1) users) rows
      then ok (new_keys s rows)
      else err foreign_key_violation

  -- No drawn key has the hash of a key that is in the table or was drawn before.
  abbrev pub AreFresh : List HardwareActivationKey → List (KeyInput × Draw) → Type 0
  AreFresh keys [] = Unit
  AreFresh keys ((input, draw) ∷ rest) =
      (any (λ (x : HardwareActivationKey). x.activation_key_hash == hash draw.raw_key) keys ≡ false)
      × ((k : HardwareActivationKey)
          → k.activation_key_hash ≡ hash draw.raw_key
          → AreFresh (keys ++ k ∷ []) rest)

  -- what the checks before the loop have found
  record Ready (st : LicensingStore) (n : ℕ) (s : Subscription) : Type 0 where
    commercial : is_super_admin actor.role ≡ true
    organization : Organization
    managed : ensure_organization_managed (directory_of st) organization_id actor ≡ ok organization
    resolved : resolve_key_subscription organization_id sub st ≡ ok s
    row : Subscription
    found : find s.id st.subscriptions ≡ some row
    room : usable_count s.id [] st + n ≤ row.seat_limit

  -- The outcome of a bulk creation: refused before the loop, and no table has changed, or the loop has
  -- added the keys of the rows before the first one whose users are not all there.
  abbrev pub BulkOutcome : List (KeyInput × Draw) → LicensingStore → Type 0
  BulkOutcome rows st =
      let run =
        bulk_create_hardware_activation_keys hash encrypt actor organization_id sub rows st in
      ((e : Failure) × (run ≡ (err e, st)))
      ⊎ ((s : Subscription) × (resolve_key_subscription organization_id sub st ≡ ok s)
          × (run ≡ (
            loop_answer s st.users rows,
            record st { keys = st.keys ++ new_keys s (known_rows s st.users rows) },
          )))
