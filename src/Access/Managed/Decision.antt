-- ===== src/Access/Managed/Decision.antt =====
-- Who passes `ensureOrganizationManaged`.
use backend_softlogic.Base.{
  String, ◌≡◌, refl, sym, subst, ◌≢◌, ◌↔◌, [], ◌⊎◌, inl, inr, true, false, Option, none, some, List,
  arith, includes, or_else, Bool-cases, Option-cases,
}
use backend_softlogic.Base.Exec.{ok}
use backend_softlogic.Base.Table.{find}
use backend_softlogic.Access.Roles.{UserRole, Actor, is_super_admin}
use backend_softlogic.Access.Directory.{
  Organization, Directory, organization_row, get_membership_organization_ids,
}
use backend_softlogic.Access.Managed.{
  get_managed_organization_ids, live_organization, manages, ensure_organization_managed,
}
use backend_softlogic.Access.Managed.Reach.{Below, partner_managed_ids-Below}

-- What a role gives over an organization, without reference to the search.
abbrev pub Manages : Directory → String → UserRole → String → Type 0
Manages dir user_id UserRole.super_admin id = Unit
Manages dir user_id UserRole.partner_admin id =
    Below dir.organizations (get_membership_organization_ids dir user_id) id
Manages dir user_id UserRole.customer_admin id =
    includes id (get_membership_organization_ids dir user_id) ≡ true
Manages dir user_id UserRole.admin id =
    includes id (get_membership_organization_ids dir user_id) ≡ true
Manages dir user_id _ id = ⊥

live_organization-ok :
    (found : Option Organization) (o : Organization)
    → live_organization found ≡ ok o
    → (found ≡ some o) × (o.deleted_at ≡ none)
unfolding live_organization
live_organization-ok none o h = absurd (cc)
live_organization-ok (some x) o h = elim (Option-cases x.deleted_at) [
  | inl live ↦ ground arith
  | inr (t, gone) ↦ absurd (ground arith)
]

live_organization-found :
    (found : Option Organization) (o : Organization)
    → found ≡ some o
    → o.deleted_at ≡ none
    → live_organization found ≡ ok o
unfolding live_organization
live_organization-found found o f d = rw (f, d)

-- `user.role` as the variable `role`, to split on.
manages_role :
    (dir : Directory) (user_id : String) (role : UserRole) (id : String)
    → role ≢ UserRole.super_admin
    → let actor : Actor = record { user_id = user_id; role = role; organization_id = none } in
      manages (get_managed_organization_ids dir actor) id ≡ true → Manages dir user_id role id
unfolding manages get_managed_organization_ids
manages_role dir user_id UserRole.partner_admin id n h =
    let (r, e, sound, complete) = partner_managed_ids-Below dir user_id in
    sound id (subst (λ (o : Option (List String)). includes id (or_else o []) ≡ true) e h)
manages_role dir user_id UserRole.customer_admin id n h = h
manages_role dir user_id UserRole.admin id n h = h
manages_role dir user_id UserRole.super_admin id n h = absurd (n refl)
manages_role dir user_id UserRole.student id n h = absurd (cc)
manages_role dir user_id UserRole.teacher id n h = absurd (cc)
manages_role dir user_id UserRole.parent id n h = absurd (cc)

role_manages :
    (dir : Directory) (user_id : String) (role : UserRole) (id : String)
    → role ≢ UserRole.super_admin
    → Manages dir user_id role id
    → let actor : Actor = record { user_id = user_id; role = role; organization_id = none } in
      manages (get_managed_organization_ids dir actor) id ≡ true
unfolding manages get_managed_organization_ids
role_manages dir user_id UserRole.partner_admin id n h =
    let (r, e, sound, complete) = partner_managed_ids-Below dir user_id in
    subst (λ (o : Option (List String)). includes id (or_else o []) ≡ true) (sym e) (complete id h)
role_manages dir user_id UserRole.customer_admin id n h = h
role_manages dir user_id UserRole.admin id n h = h
role_manages dir user_id UserRole.super_admin id n h = absurd (n refl)
role_manages dir user_id UserRole.student id n h = absurd h
role_manages dir user_id UserRole.teacher id n h = absurd h
role_manages dir user_id UserRole.parent id n h = absurd h

role-cases :
    (role : UserRole)
    → ((role ≡ UserRole.super_admin) × (is_super_admin role ≡ true))
      ⊎ ((role ≢ UserRole.super_admin) × (is_super_admin role ≡ false))
unfolding is_super_admin
role-cases UserRole.super_admin = inl (refl, refl)
role-cases UserRole.student = inr (λ e. cc, refl)
role-cases UserRole.teacher = inr (λ e. cc, refl)
role-cases UserRole.parent = inr (λ e. cc, refl)
role-cases UserRole.customer_admin = inr (λ e. cc, refl)
role-cases UserRole.partner_admin = inr (λ e. cc, refl)
role-cases UserRole.admin = inr (λ e. cc, refl)

-- `ensureOrganizationManaged` returns an organization exactly when the user manages it (any for a
-- super admin, those at or below a membership for a partner admin, the memberships for a customer
-- admin and an admin, none for the other roles) and it exists and is not deleted; it then returns
-- the row of that id.
pub ensure_organization_managed_iff :
    (dir : Directory) (id : String) (user : Actor) (o : Organization)
    → (ensure_organization_managed dir id user ≡ ok o) ↔ (
        Manages dir user.user_id user.role id
        × (find id dir.organizations ≡ some o)
        × (o.deleted_at ≡ none))
unfolding ensure_organization_managed get_managed_organization_ids
ensure_organization_managed_iff dir id user o =
    let found = find id dir.organizations in
    let pass = live_organization-ok found o in
    let back = live_organization-found found o in
    elim (role-cases user.role) [
      | inl (super, s) ↦ (
        λ h.
            let (f, d) = pass (ground arith) in
            (subst (λ r. Manages dir user.user_id r id) (sym super) tt, f, d),
        λ (m, f, d). let l = back f d in ground arith,
      )
      | inr (n, plain) ↦ (
        λ h. elim (Bool-cases (manages (get_managed_organization_ids dir user) id)) [
          | inl yes_managed ↦
              let (f, d) = pass (ground arith) in
              (manages_role dir user.user_id user.role id n yes_managed, f, d)
          | inr not_managed ↦ absurd (ground arith)
        ],
        λ (m, f, d).
            let l = back f d in
            let k = role_manages dir user.user_id user.role id n m in ground arith,
      )
    ]
