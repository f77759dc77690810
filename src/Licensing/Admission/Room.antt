-- ===== src/Licensing/Admission/Room.antt =====
-- Whoever may be activated finds room, and may log in.
use backend_softlogic.Base.{
  ℕ, ◌+◌, ◌≤◌, ◌<◌, String, ◌≡◌, refl, sym, subst, ◌⊎◌, inl, inr, true, ◌&&◌, Option, none, some,
  List, [], ◌∷◌, ◌++◌, count, arith, Bool-cases, Option-cases,
}
use backend_softlogic.Base.Exec.{ok}
use backend_softlogic.Base.Table.{find}
use backend_softlogic.Base.Table.Queries.{count-append_one}
use backend_softlogic.Access.Roles.{UserRole, is_super_admin}
use backend_softlogic.Licensing.Store.{
  Subscription, LicensedOrganization, LicensedUser, LicensingStore, licensed_organization_row,
  licensed_user_row, is_licensed_role,
}
use backend_softlogic.Licensing.Seats.{
  is_active_member, takes_seat, active_licensed_users, get_active_organization_subscription,
}
use backend_softlogic.Licensing.Admission.{
  login_allowed, login_of, assert_organization_can_login, is_other, same_role, role_limit,
  used_for_role, used_seats, within_limit, activate_under, activate_in,
  assert_can_activate_user_role,
}

module _ (id : String) (role : UserRole) (ignored : Option String) (st : LicensingStore) where
  -- what an accepted activation has found
  pub record Admitted : Type 0 where
    pub organization : LicensedOrganization
    pub found : find id st.organizations ≡ some organization
    pub allowed : login_allowed role organization ≡ ok tt
    pub subscription : Subscription
    pub subscribed : get_active_organization_subscription id st ≡ some subscription
    pub role_room :
        within_limit (role_limit role organization) (used_for_role id role ignored st) ≡ true
    pub room : used_seats id ignored st < subscription.seat_limit

  activate-Admitted :
      is_licensed_role role ≡ true
      → assert_can_activate_user_role (some id) role ignored st ≡ ok tt
      → Admitted
  unfolding assert_can_activate_user_role activate_in activate_under login_allowed
  activate-Admitted licensed h = elim (Option-cases (find id st.organizations)) [
    | inl e ↦ absurd (ground (arith, e, licensed))
    | inr (o, e) ↦ elim (Option-cases (get_active_organization_subscription id st)) [
      | inl n ↦ absurd (ground (arith, e, licensed, n))
      | inr (s, f) ↦ record {
        organization = o;
        found = e;
        allowed = ground (arith, e, licensed, f);
        subscription = s;
        subscribed = f;
        role_room = ground (arith, e, licensed, f);
        room = ground (arith, e, licensed, f);
      }
    ]
  ]

  -- Whoever may be activated in a licensed role for an organization may log in, as a user with that role
  -- and that organization.
  pub activate-login :
      (user_id : String) (u : LicensedUser)
      → is_licensed_role role ≡ true
      → assert_can_activate_user_role (some id) role ignored st ≡ ok tt
      → find user_id st.users ≡ some u
      → u.row.role ≡ role
      → u.row.primary_organization_id ≡ some id
      → assert_organization_can_login user_id st ≡ ok tt
  unfolding assert_organization_can_login login_of
  activate-login user_id u licensed h e r o =
      let a = activate-Admitted licensed h in
      let allowed = subst (λ x. login_allowed x a.organization ≡ ok tt) (sym r) a.allowed in
      elim (Bool-cases (is_super_admin u.row.role)) [
        | inl s ↦ ground (arith, e, s)
        | inr s ↦ ground (arith, e, s, o, a.found, allowed)
      ]

limited :
    (l : Option ℕ) (used total : ℕ)
    → within_limit l used ≡ true
    → total ≤ used + 1
    → (l ≡ none) ⊎ ((limit : ℕ) × (l ≡ some limit) × (total ≤ limit))
unfolding within_limit
limited none used total h k = inl refl
limited (some limit) used total h k = inr (limit, refl, ground arith)

module _ (id : String) (role : UserRole) (st : LicensingStore) (u : LicensedUser) where
  all_seats :
      (us : List LicensedUser)
      → count (λ u. takes_seat id u && is_other none u) us ≡ count (takes_seat id) us
  all_seats [] = refl
  all_seats (u ∷ us) = ground (arith, all_seats us)

  of_role :
      (us : List LicensedUser)
      → count (λ u. is_active_member id u && same_role role u.row.role && is_other none u) us
        ≡ count (λ u. is_active_member id u && same_role role u.row.role) us
  of_role [] = refl
  of_role (u ∷ us) = ground (arith, of_role us)

  -- the users with one more
  abbrev pub with_user : LicensingStore
  with_user = record st { users = st.users ++ u ∷ [] }

  -- Where a licensed role may be activated and an active user is added with it, the organization has an
  -- active subscription with at least as many seats as active licensed users, and no more users of the
  -- role than its limit, if it has one.
  pub activate-seats :
      is_licensed_role role ≡ true
      → assert_can_activate_user_role (some id) role none st ≡ ok tt
      → (a : Admitted id role none st) × (active_licensed_users id with_user
          ≤ a.subscription.seat_limit)
        × ((role_limit role a.organization ≡ none)
            ⊎ ((limit : ℕ) × (role_limit role a.organization ≡ some limit)
                × (count (λ u. is_active_member id u && same_role role u.row.role) with_user.users
                    ≤ limit)))
  unfolding active_licensed_users used_seats used_for_role
  activate-seats licensed h =
      let a = activate-Admitted id role none st licensed h in
      let grown = count-append_one (takes_seat id) u st.users in
      let room : count (λ u. takes_seat id u && is_other none u) st.users
          < a.subscription.seat_limit =
        a.room in
      let same = all_seats st.users in
      let by_role =
        count-append_one (λ (u : LicensedUser). is_active_member id u && same_role role u.row.role)
          u st.users in
      let same_role_count = of_role st.users in
      (
        a,
        ground (arith, grown, room, same),
        limited (role_limit role a.organization) _ _ a.role_room
            (ground (arith, by_role, same_role_count)),
      )
