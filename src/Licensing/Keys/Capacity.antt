-- ===== src/Licensing/Keys/Capacity.antt =====
-- The usable keys of a subscription stay within its limit of seats.
use backend_softlogic.Base.{
  ℕ, ◌+◌, ◌≤◌, String, ◌≡◌, refl, sym, subst, inl, inr, false, Option, none, some, List, [], ◌∷◌,
  ◌++◌, ◌==◌, eq_iff, any, count, ltb, arith, Bool-cases, Option-cases,
}
use backend_softlogic.Base.Exec.{modify, ◌>>◌}
use backend_softlogic.Base.Keeps.{Keeps, Keeps-pure, Keeps-raise_if, Keeps-bind, keeps_rules}
use backend_softlogic.Base.Table.{find, update, update_where}
use backend_softlogic.Base.Table.Queries.{count-append_one}
use backend_softlogic.Access.Roles.{Actor}
use backend_softlogic.Licensing.Store.{
  Subscription, HardwareActivationKey, LicensingStore, subscription_row, key_row,
  require_super_admin, ensure_managed, is_usable, update_key,
}
use backend_softlogic.Licensing.Keys.{
  KeyInput, Draw, counts_for, usable_count, capacity_of, assert_hardware_key_capacity, new_key,
  insert_key, has_users, create_hardware_activation_key, create_each,
  bulk_create_hardware_activation_keys, disable_key, disable_activation, revoke_key,
  is_active_activation_of, revoke_hardware_activation_key, replace_hardware_activation_key,
}

-- No subscription has more usable keys than seats.
pub record WithinSeats (st : LicensingStore) : Type 0 where
  pub within :
      (id : String) (s : Subscription)
      → find id st.subscriptions ≡ some s
      → usable_count id [] st ≤ s.seat_limit

module _ (st : LicensingStore) (k : HardwareActivationKey) (sub : String) where
  abbrev with_key : LicensingStore
  with_key = record st { keys = st.keys ++ k ∷ [] }

  count_elsewhere :
      (id : String)
      → k.subscription_id ≡ some sub
      → (sub == id) ≡ false
      → usable_count id [] with_key ≡ usable_count id [] st
  unfolding usable_count
  count_elsewhere id e n =
      let counts = count-append_one (counts_for id []) k st.keys in
      let not_counted : counts_for id [] k ≡ false = rw (e, n) in
      ground (arith, counts, not_counted)

  pub count_at_most_one_more :
      (id : String) → usable_count id [] with_key ≤ usable_count id [] st + 1
  unfolding usable_count
  count_at_most_one_more id =
      let counts = count-append_one (counts_for id []) k st.keys in ground (arith, counts)

  with_key-WithinSeats :
      (s : Subscription)
      → k.subscription_id ≡ some sub
      → find sub st.subscriptions ≡ some s
      → usable_count sub [] st + 1 ≤ s.seat_limit
      → WithinSeats st
      → WithinSeats with_key
  with_key-WithinSeats s e found room h = record {
    within = λ id s' found'. elim (Bool-cases (sub == id)) [
      | inl same ↦
          let q : sub ≡ id = (eq_iff sub id).0 same in
          let more = count_at_most_one_more sub in
          let at_sub : find sub st.subscriptions ≡ some s' =
            subst (λ j. find j st.subscriptions ≡ some s') (sym q) found' in
          let one : s ≡ s' = cc in
          subst (λ j. usable_count j [] with_key ≤ s'.seat_limit) q
            (subst (λ (t : Subscription). usable_count sub [] with_key ≤ t.seat_limit) one
              (omega arith))
      | inr other ↦ let before = h.within id s' found' in rw (count_elsewhere id e other) before
    ];
  }

module _ (k : HardwareActivationKey) (sub : String) (of_sub : k.subscription_id ≡ some sub) where
  insert_key-WithinSeats :
      (st : LicensingStore) (s : Subscription)
      → find sub st.subscriptions ≡ some s
      → usable_count sub [] st + 1 ≤ s.seat_limit
      → WithinSeats st
      → WithinSeats (insert_key k st).1
  unfolding insert_key
  insert_key-WithinSeats st s found room h =
      elim (Bool-cases (any (λ x. x.activation_key_hash == k.activation_key_hash) st.keys)) [
        | inl taken ↦ rw taken h
        | inr free ↦ elim (Bool-cases (has_users k st.users)) [
          | inl known ↦ rw (free, known) (with_key-WithinSeats st k sub s of_sub found room h)
          | inr unknown ↦ rw (free, unknown) h
        ]
      ]

  checked_at :
      (st : LicensingStore) (o : Option Subscription)
      → find sub st.subscriptions ≡ o
      → WithinSeats st
      → WithinSeats ((assert_hardware_key_capacity sub 1 [] >> insert_key k) st).1
  unfolding assert_hardware_key_capacity capacity_of
  checked_at st none e h = rw e h
  checked_at st (some s) e h = elim (Bool-cases (ltb s.seat_limit (usable_count sub [] st + 1))) [
    | inl full ↦ rw (e, full) h
    | inr room ↦ rw (e, room) (insert_key-WithinSeats st s e (ground arith) h)
  ]

  checked-WithinSeats : Keeps WithinSeats (assert_hardware_key_capacity sub 1 [] >> insert_key k)
  checked-WithinSeats = record { at = λ st h. checked_at st (find sub st.subscriptions) refl h }

module _ (actor : Actor) where
  super_admin-WithinSeats : Keeps WithinSeats (require_super_admin actor)
  super_admin-WithinSeats = Keeps-raise_if _ _

  managed-WithinSeats : (id : String) → Keeps WithinSeats (ensure_managed id actor)
  managed-WithinSeats id = record { at = λ st h. h }

capacity-WithinSeats :
    (id : String) (n : ℕ) (ex : List String)
    → Keeps WithinSeats (assert_hardware_key_capacity id n ex)
unfolding assert_hardware_key_capacity
capacity-WithinSeats id n ex = record { at = λ st h. h }

module _ (hash encrypt : String → String) (actor : Actor) where
  new_key-WithinSeats :
      (organization_id : String) (input : KeyInput) (draw : Draw) (s : Subscription)
      → Keeps WithinSeats (
          assert_hardware_key_capacity s.id 1 []
          >> insert_key (new_key hash encrypt actor organization_id input draw s))
  unfolding new_key
  new_key-WithinSeats organization_id input draw s = checked-WithinSeats _ s.id refl

  pub create-WithinSeats :
      (organization_id : String) (input : KeyInput) (draw : Draw)
      → Keeps WithinSeats
          (create_hardware_activation_key hash encrypt actor organization_id input draw)
  unfolding create_hardware_activation_key
  create-WithinSeats organization_id input draw =
      search (new_key-WithinSeats, super_admin-WithinSeats, managed-WithinSeats, keeps_rules) depth
        8

  create_each-WithinSeats :
      (organization_id : String) (sub : Option String) (rows : List (KeyInput × Draw))
      → Keeps WithinSeats (create_each hash encrypt actor organization_id sub rows)
  unfolding create_each
  create_each-WithinSeats organization_id sub [] = Keeps-pure _
  create_each-WithinSeats organization_id sub ((input, draw) ∷ rest) =
      Keeps-bind
        (create_hardware_activation_key hash encrypt actor organization_id
          (record input { subscription_id = sub }) draw)
        _ (create-WithinSeats organization_id _ draw)
        λ created.
          Keeps-bind (create_each hash encrypt actor organization_id sub rest) _
            (create_each-WithinSeats organization_id sub rest)
            λ others. Keeps-pure (created ∷ others)

  pub bulk_create-WithinSeats :
      (organization_id : String) (sub : Option String) (rows : List (KeyInput × Draw))
      → Keeps WithinSeats
          (bulk_create_hardware_activation_keys hash encrypt actor organization_id sub rows)
  unfolding bulk_create_hardware_activation_keys
  bulk_create-WithinSeats organization_id sub rows =
      search
        (
          super_admin-WithinSeats, managed-WithinSeats, capacity-WithinSeats,
          create_each-WithinSeats, keeps_rules,
        )
        depth 8

count-disabled :
    (id key_id : String) (t : List HardwareActivationKey)
    → count (counts_for id []) (update key_id disable_key t) ≤ count (counts_for id []) t
unfolding disable_key update is_usable
count-disabled id key_id [] = omega arith
count-disabled id key_id (k ∷ t) = ground (arith, count-disabled id key_id t)

disable_key_at :
    (key_id : String) (st : LicensingStore)
    → WithinSeats st
    → WithinSeats (update_key key_id disable_key st).1
unfolding usable_count
disable_key_at key_id st h = elim (Option-cases (find key_id st.keys)) [
  | inl e ↦ subst WithinSeats (ground (arith, e)) h
  | inr (k, e) ↦
      let after : LicensingStore = record st { keys = update key_id disable_key st.keys } in
      let w : (update_key key_id disable_key st).1 ≡ after = ground (arith, e) in
      subst WithinSeats (sym w) (record {
        within = λ id s found.
            let fewer = count-disabled id key_id st.keys in
            let before = h.within id s found in omega arith;
      })
]

activations-WithinSeats :
    (key_id : String)
    → Keeps WithinSeats (
        modify (λ st. record st {
          activations =
              update_where (is_active_activation_of key_id) disable_activation st.activations;
        }))
unfolding usable_count
activations-WithinSeats key_id = record { at = λ st h. record { within = h.within } }

disable_key-WithinSeats : (key_id : String) → Keeps WithinSeats (update_key key_id disable_key)
disable_key-WithinSeats key_id = record { at = disable_key_at key_id }

pub revoke-WithinSeats :
    (actor : Actor) (key_id : String)
    → Keeps WithinSeats (revoke_hardware_activation_key actor key_id)
unfolding revoke_hardware_activation_key revoke_key
revoke-WithinSeats actor key_id =
    search
      (
        super_admin-WithinSeats, managed-WithinSeats, activations-WithinSeats,
        disable_key-WithinSeats, keeps_rules,
      )
      depth 9

pub replace-WithinSeats :
    (hash encrypt : String → String) (actor : Actor) (key_id : String) (draw : Draw)
    → Keeps WithinSeats (replace_hardware_activation_key hash encrypt actor key_id draw)
unfolding replace_hardware_activation_key
replace-WithinSeats hash encrypt actor key_id draw =
    search
      (
        super_admin-WithinSeats, managed-WithinSeats, capacity-WithinSeats, revoke-WithinSeats,
        create-WithinSeats, keeps_rules,
      )
      depth 9
