-- ===== src/Access/Directory.antt =====
-- The rows of organizations, users and links that access control reads, and its plain queries.
use backend_softlogic.Base.{
  ℕ, String, Bool, ◌&&◌, Option, none, some, List, map, keep, ◌==◌, if◌then◌else◌,
}
use backend_softlogic.Base.Table.{Row}
use backend_softlogic.Access.Roles.{UserRole, Actor, is_super_admin}

pub data OrganizationKind : Type 0 where
  internal partner customer : OrganizationKind

pub data OrganizationStatus : Type 0 where
  active inactive : OrganizationStatus

-- Times are milliseconds since the epoch.
pub record Organization : Type 0 where
  pub id : String
  pub kind : OrganizationKind
  pub parent_organization_id : Option String
  pub status : OrganizationStatus
  pub deleted_at : Option ℕ

pub record User : Type 0 where
  pub id : String
  pub role : UserRole
  pub primary_organization_id : Option String
  pub deleted_at : Option ℕ

pub record Membership : Type 0 where
  pub user_id : String
  pub organization_id : String

-- `is_active` says that the link's status is `ACTIVE`.
pub record ParentStudentLink : Type 0 where
  pub parent_user_id : String
  pub student_user_id : String
  pub is_active : Bool

pub record Directory : Type 0 where
  pub organizations : List Organization
  pub users : List User
  pub memberships : List Membership
  pub parent_links : List ParentStudentLink

instance abbrev pub organization_row : Row Organization
organization_row = record { key = λ o. o.id }

instance abbrev pub user_row : Row User
user_row = record { key = λ u. u.id }

unfoldable pub get_membership_organization_ids : Directory → String → List String
get_membership_organization_ids dir user_id =
    map (λ (m : Membership). m.organization_id) (keep (λ m. m.user_id == user_id) dir.memberships)

-- `null` stands for every organization.
unfoldable pub get_accessible_organization_ids : Directory → Actor → Option (List String)
get_accessible_organization_ids dir user =
    if is_super_admin user.role
    then none
    else some (get_membership_organization_ids dir user.user_id)

unfoldable pub get_linked_student_ids_for_parent : Directory → String → List String
get_linked_student_ids_for_parent dir parent_user_id =
    map (λ (l : ParentStudentLink). l.student_user_id)
      (keep (λ l. (l.parent_user_id == parent_user_id) && l.is_active) dir.parent_links)
