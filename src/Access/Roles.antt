-- ===== src/Access/Roles.antt =====
-- src/shared/utils/access-control.ts, the tests on roles; `enum UserRole` of prisma/schema.prisma.
use backend_softlogic.Base.{ℕ, String, ◌≡◌, ◌<◌, ◌⊎◌, Bool, true, false, Option, arith}

pub data UserRole : Type 0 where
  student teacher parent customer_admin partner_admin admin super_admin : UserRole

-- `AuthenticatedUserLike`
pub record Actor : Type 0 where
  pub user_id : String
  pub role : UserRole
  pub organization_id : Option String

unfoldable pub is_super_admin : UserRole → Bool
is_super_admin UserRole.super_admin = true
is_super_admin _ = false

unfoldable pub is_admin_role : UserRole → Bool
is_admin_role UserRole.super_admin = true
is_admin_role UserRole.partner_admin = true
is_admin_role UserRole.customer_admin = true
is_admin_role UserRole.admin = true
is_admin_role _ = false

-- The role is one of `CUSTOMER_ADMIN`, `TEACHER`, `STUDENT`, `PARENT`.
below_partner : UserRole → Bool
below_partner UserRole.customer_admin = true
below_partner UserRole.teacher = true
below_partner UserRole.student = true
below_partner UserRole.parent = true
below_partner _ = false

-- The role is one of `TEACHER`, `STUDENT`, `PARENT`.
below_customer : UserRole → Bool
below_customer UserRole.teacher = true
below_customer UserRole.student = true
below_customer UserRole.parent = true
below_customer _ = false

unfoldable pub can_manage_role : UserRole → UserRole → Bool
unfolding below_partner below_customer
can_manage_role UserRole.super_admin target = true
can_manage_role UserRole.partner_admin target = below_partner target
can_manage_role UserRole.customer_admin target = below_customer target
can_manage_role UserRole.admin target = below_customer target
can_manage_role _ target = false

-- A place for each role in the hierarchy of administration.
abbrev pub rank : UserRole → ℕ
rank UserRole.student = 0
rank UserRole.parent = 0
rank UserRole.teacher = 0
rank UserRole.customer_admin = 1
rank UserRole.admin = 1
rank UserRole.partner_admin = 2
rank UserRole.super_admin = 3

-- Whoever may manage a role has an admin role, and is a super admin or stands strictly above that
-- role.
pub can_manage_role-rank :
    (a t : UserRole)
    → can_manage_role a t ≡ true
    → (is_admin_role a ≡ true) × ((a ≡ UserRole.super_admin) ⊎ (rank t < rank a))
unfolding can_manage_role is_admin_role
can_manage_role-rank a t h = ground arith

-- What a role manages, every role that manages that one manages too.
pub can_manage_role_trans :
    (a b c : UserRole)
    → can_manage_role a b ≡ true
    → can_manage_role b c ≡ true
    → can_manage_role a c ≡ true
unfolding can_manage_role
can_manage_role_trans a b c h k = ground arith
