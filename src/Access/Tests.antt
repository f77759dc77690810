-- ===== src/Access/Tests.antt =====
-- Runs of access control on a small directory: a partner, a customer below it, and a deleted customer.
use backend_softlogic.Base.{
  ◌≡◌, ◌↔◌, refl, String, List, [], ◌∷◌, Option, none, some, true, includes,
}
use backend_softlogic.Base.Exec.{ok}
use backend_softlogic.Base.Table.{find}
use backend_softlogic.Access.Roles.{UserRole, Actor}
use backend_softlogic.Access.Directory.{
  OrganizationKind, OrganizationStatus, Organization, Directory, organization_row,
  get_membership_organization_ids,
}
use backend_softlogic.Access.Managed.{partner_managed_ids, ensure_organization_managed}
use backend_softlogic.Access.Managed.Reach.{Below, partner_managed_ids-Below}
use backend_softlogic.Access.Managed.Decision.{Manages, ensure_organization_managed_iff}
use backend_softlogic.Access.Canvas.{Canvas, canvas_row, is_live}
use backend_softlogic.Access.Canvas.Agreement.{write_without_read_iff, WriteNotRead, KeptFrom}

abbrev organization : String → OrganizationKind → Option String → Organization
organization id kind parent = record {
  id = id;
  kind = kind;
  parent_organization_id = parent;
  status = OrganizationStatus.active;
  deleted_at = none;
}

abbrev customer : Organization
customer = organization "customer" OrganizationKind.customer (some "partner")

abbrev directory : Directory
directory = record {
  organizations =
      organization "partner" OrganizationKind.partner none
      ∷ customer
      ∷ record customer { id = "gone"; deleted_at = some 5 }
      ∷ [];
  users = [];
  memberships =
      record { user_id = "admin"; organization_id = "partner" }
      ∷ record { user_id = "teacher"; organization_id = "customer" }
      ∷ [];
  parent_links = [];
}

abbrev partner_admin : Actor
partner_admin = record {
  user_id = "admin";
  role = UserRole.partner_admin;
  organization_id = some "partner";
}

abbrev teacher : Actor
teacher = record { user_id = "teacher"; role = UserRole.teacher; organization_id = some "customer" }

abbrev student : Actor
student = record { user_id = "student"; role = UserRole.student; organization_id = some "customer" }

abbrev board : String → Canvas
board owner = record {
  id = "board";
  user_id = owner;
  organization_id = some "customer";
  deleted_at = none;
}

partner_managed_ids-Below_example :
    (r : List String) × (partner_managed_ids directory "admin" ≡ some r)
    × ((x : String)
        → includes x r ≡ true
        → Below directory.organizations (get_membership_organization_ids directory "admin") x)
    × ((x : String)
        → Below directory.organizations (get_membership_organization_ids directory "admin") x
        → includes x r ≡ true)
partner_managed_ids-Below_example = partner_managed_ids-Below directory "admin"

ensure_organization_managed_iff_example :
    (ensure_organization_managed directory "customer" partner_admin ≡ ok customer) ↔ (
      Manages directory "admin" UserRole.partner_admin "customer"
      × (find "customer" directory.organizations ≡ some customer)
      × (customer.deleted_at ≡ none))
ensure_organization_managed_iff_example =
    ensure_organization_managed_iff directory "customer" partner_admin customer

write_without_read_iff_example :
    WriteNotRead directory [] (board "student" ∷ []) student (board "student") ↔ (
      (is_live (board "student") ≡ true)
      × ((board "student").user_id ≡ student.user_id)
      × KeptFrom directory [] student (board "student") student.role)
unfolding find
write_without_read_iff_example =
    write_without_read_iff directory [] (board "student" ∷ []) student (board "student") refl
