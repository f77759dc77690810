-- ===== src/Access/Managed.antt =====
-- src/shared/utils/access-control.ts, `getManagedOrganizationIds` and `ensureOrganizationManaged`: the
-- loop over the levels of the hierarchy of organizations.
pub mod Search
pub mod Reach
pub mod Decision
use backend_softlogic.Base.{
  ℕ, zero, suc, ◌+◌, String, Bool, true, false, not, ◌&&◌, ◌||◌, Option, none, some, List, [], ◌∷◌,
  ◌++◌, map, keep, length, includes, same_text, is_some, or_else, ◌==◌, if◌then◌else◌,
}
use backend_softlogic.Base.Exec.{Result, ok, err}
use backend_softlogic.Base.Failure.{Failure, organization_not_found, no_access_to_organization}
use backend_softlogic.Base.Table.{find}
use backend_softlogic.Access.Roles.{UserRole, Actor, is_super_admin}
use backend_softlogic.Access.Directory.{
  OrganizationKind, Organization, Directory, organization_row, get_membership_organization_ids,
}

-- `kind: { in: [PARTNER, CUSTOMER] }`
pub is_partner_or_customer : OrganizationKind → Bool
is_partner_or_customer OrganizationKind.partner = true
is_partner_or_customer OrganizationKind.customer = true
is_partner_or_customer OrganizationKind.internal = false

-- `parentOrganizationId: { in: frontier }`
parent_in : List String → Option String → Bool
parent_in frontier none = false
parent_in frontier (some p) = includes p frontier

-- the `where` clause of the query for children
is_child_of : List String → Organization → Bool
unfolding is_partner_or_customer parent_in
is_child_of frontier o =
    parent_in frontier o.parent_organization_id
    && is_partner_or_customer o.kind
    && not (is_some o.deleted_at)

pub find_children : List Organization → List String → List String
unfolding is_child_of
find_children [] frontier = []
find_children (o ∷ os) frontier =
    let rest = find_children os frontier in if is_child_of frontier o then o.id ∷ rest else rest

-- `.filter((id) => !managedIds.has(id))`
pub not_in : List String → List String → List String
not_in managed [] = []
not_in managed (x ∷ xs) =
    let rest = not_in managed xs in if includes x managed then rest else x ∷ rest

-- `ids.forEach((id) => set.add(id))`, with a `Set` as the list of its members in insertion order
pub add_all : List String → List String → List String
add_all set [] = set
add_all set (x ∷ xs) = add_all (if includes x set then set else set ++ x ∷ []) xs

-- The `while` loop on fuel: `none` means that the fuel ran out.
pub descend : ℕ → List Organization → List String → List String → Option (List String)
unfolding find_children not_in add_all
descend zero os managed frontier = none
descend (suc fuel) os managed [] = some managed
descend (suc fuel) os managed (x ∷ xs) =
    let frontier = not_in managed (find_children os (x ∷ xs)) in
    descend fuel os (add_all managed frontier) frontier

pub partner_managed_ids : Directory → String → Option (List String)
unfolding descend
partner_managed_ids dir user_id =
    let ids = get_membership_organization_ids dir user_id in
    descend (length dir.organizations + 2) dir.organizations (add_all [] ids) ids

managed_for_role : Directory → String → UserRole → Option (List String)
managed_for_role dir user_id UserRole.super_admin = none
managed_for_role dir user_id UserRole.partner_admin =
    some (or_else (partner_managed_ids dir user_id) [])
managed_for_role dir user_id UserRole.customer_admin =
    some (get_membership_organization_ids dir user_id)
managed_for_role dir user_id UserRole.admin = some (get_membership_organization_ids dir user_id)
managed_for_role dir user_id _ = some []

-- `null`, here `none`, stands for every organization.
unfoldable pub get_managed_organization_ids : Directory → Actor → Option (List String)
unfolding managed_for_role
get_managed_organization_ids dir user = managed_for_role dir user.user_id user.role

-- `!organization || organization.deletedAt`
pub live_organization : Option Organization → Result Organization
live_organization none = err organization_not_found
live_organization (some o) = if is_some o.deleted_at then err organization_not_found else ok o

-- `managedOrganizationIds?.includes(organizationId)`
unfoldable pub manages : Option (List String) → String → Bool
manages none id = false
manages (some ids) id = includes id ids

unfoldable pub ensure_organization_managed : Directory → String → Actor → Result Organization
unfolding live_organization manages
ensure_organization_managed dir organization_id user =
    if is_super_admin user.role
    then live_organization (find organization_id dir.organizations)
    else if manages (get_managed_organization_ids dir user) organization_id
    then live_organization (find organization_id dir.organizations)
    else err no_access_to_organization
