-- ===== src/Licensing/Admission.antt =====
-- Who may log in, who may be activated, and how far a limit of seats may be lowered.
pub mod Room
use backend_softlogic.Base.{
  ℕ, String, Bool, true, false, not, ◌&&◌, ◌||◌, Option, none, some, ◌==◌, count, ltb, leb, is_some,
  same_text, if◌then◌else◌,
}
use backend_softlogic.Base.Exec.{Result, ok, err}
use backend_softlogic.Base.Failure.{
  Failure, subscription_not_found, seats_below_usage, user_not_found,
  organization_assignment_required, organization_inactive, teacher_only_logins,
  student_logins_disabled, parent_logins_disabled, licensed_user_needs_organization,
  active_organization_required, teacher_users_only, student_users_disabled, parent_users_disabled,
  subscription_required, subscription_not_active, role_limit_reached, seat_limit_reached,
}
use backend_softlogic.Base.Table.{find}
use backend_softlogic.Access.Roles.{UserRole, is_super_admin}
use backend_softlogic.Licensing.Store.{
  Subscription, HardwareActivationKey, LicensedOrganization, LicensedUser, LicensingStore,
  subscription_row, licensed_organization_row, licensed_user_row, is_active_subscription_status,
  is_usable, is_licensed_role, is_organization_active,
}
use backend_softlogic.Licensing.Seats.{
  is_active_member, takes_seat, active_licensed_users, get_active_organization_subscription,
}

abbrev pub is_student : UserRole → Bool
is_student UserRole.student = true
is_student _ = false

abbrev pub is_parent : UserRole → Bool
is_parent UserRole.parent = true
is_parent _ = false

-- `deletedAt || status !== ACTIVE`
unfoldable pub is_closed : LicensedOrganization → Bool
is_closed o = is_some o.row.deleted_at || not (is_organization_active o.row.status)

pub login_allowed : UserRole → LicensedOrganization → Result (Unit {0})
login_allowed role o =
    if is_closed o
    then err organization_inactive
    else if o.teacher_only_mode && (is_student role || is_parent role)
    then err teacher_only_logins
    else if is_student role && not o.student_login_enabled
    then err student_logins_disabled
    else if is_parent role && not o.parent_login_enabled
    then err parent_logins_disabled
    else ok tt

login_of : LicensingStore → LicensedUser → Result (Unit {0})
unfolding login_allowed
login_of st user =
    if is_super_admin user.row.role then ok tt else elim user.row.primary_organization_id [
      | none ↦ err organization_assignment_required
      | some id ↦ elim (find id st.organizations) [
        | none ↦ err organization_assignment_required
        | some o ↦ login_allowed user.row.role o
      ]
    ]

unfoldable pub assert_organization_can_login : String → LicensingStore → Result (Unit {0})
unfolding login_of
assert_organization_can_login user_id st = elim (find user_id st.users) [
  | none ↦ err user_not_found
  | some user ↦ login_of st user
]

-- `userIdToIgnore`
abbrev pub is_other : Option String → LicensedUser → Bool
is_other none u = true
is_other (some id) u = not (u.row.id == id)

abbrev pub same_role : UserRole → UserRole → Bool
same_role UserRole.teacher UserRole.teacher = true
same_role UserRole.student UserRole.student = true
same_role UserRole.parent UserRole.parent = true
same_role _ _ = false

-- of a licensed role
unfoldable pub role_limit : UserRole → LicensedOrganization → Option ℕ
role_limit UserRole.teacher o = o.teacher_user_limit
role_limit UserRole.student o = o.student_user_limit
role_limit _ o = o.parent_user_limit

unfoldable pub used_for_role : String → UserRole → Option String → LicensingStore → ℕ
used_for_role organization_id role ignored st =
    count
      (λ u. is_active_member organization_id u && same_role role u.row.role && is_other ignored u)
      st.users

unfoldable pub used_seats : String → Option String → LicensingStore → ℕ
used_seats organization_id ignored st =
    count (λ u. takes_seat organization_id u && is_other ignored u) st.users

pub within_limit : Option ℕ → ℕ → Bool
within_limit none used = true
within_limit (some limit) used = ltb used limit

activate_under :
    String
    → UserRole
    → Option String
    → LicensingStore
    → LicensedOrganization
    → Option Subscription
    → Result (Unit {0})
unfolding within_limit
activate_under organization_id role ignored st o none = err subscription_required
activate_under organization_id role ignored st o (some s) =
    if not (is_active_subscription_status s.status)
    then err subscription_not_active
    else if not (within_limit (role_limit role o) (used_for_role organization_id role ignored st))
    then err role_limit_reached
    else if leb s.seat_limit (used_seats organization_id ignored st)
    then err seat_limit_reached
    else ok tt

activate_in :
    String
    → UserRole
    → Option String
    → LicensingStore
    → Option LicensedOrganization
    → Result (Unit {0})
unfolding activate_under
activate_in organization_id role ignored st none = err active_organization_required
activate_in organization_id role ignored st (some o) =
    if is_closed o
    then err active_organization_required
    else if o.teacher_only_mode && (is_student role || is_parent role)
    then err teacher_users_only
    else if is_student role && not o.student_login_enabled
    then err student_users_disabled
    else if is_parent role && not o.parent_login_enabled
    then err parent_users_disabled
    else activate_under organization_id role ignored st o
        (get_active_organization_subscription organization_id st)

unfoldable pub assert_can_activate_user_role :
    Option String → UserRole → Option String → LicensingStore → Result (Unit {0})
unfolding activate_in
assert_can_activate_user_role organization_id role ignored st =
    if not (is_licensed_role role) then ok tt else elim organization_id [
      | none ↦ err licensed_user_needs_organization
      | some id ↦ activate_in id role ignored st (find id st.organizations)
    ]

unfoldable pub usable_keys : String → LicensingStore → ℕ
usable_keys subscription_id st =
    count (λ k. same_text k.subscription_id (some subscription_id) && is_usable k.status) st.keys

-- `Math.max`
abbrev max : ℕ → ℕ → ℕ
max a b = if ltb a b then b else a

unfoldable pub required_seats : Subscription → LicensingStore → ℕ
required_seats s st =
    max (elim s.organization_id [ none ↦ 0 | some o ↦ active_licensed_users o st ])
      (usable_keys s.id st)

unfoldable pub assert_subscription_seat_capacity : String → ℕ → LicensingStore → Result (Unit {0})
assert_subscription_seat_capacity subscription_id seat_limit st =
    elim (find subscription_id st.subscriptions) [
      | none ↦ err subscription_not_found
      | some s ↦
          if ltb seat_limit (required_seats s st)
          then err (seats_below_usage (required_seats s st))
          else ok tt
    ]
