-- ===== src/Access/Canvas.antt =====
-- src/shared/utils/access-control.ts, the clauses that guard a board: which boards a query returns to a
-- user for reading (`canvasReadWhere`), for writing (`canvasWriteWhere`), and the permissions that are
-- reported with a board (`canvasAccessMetadata`).
pub mod Agreement
use backend_softlogic.Base.{
  ℕ, String, Bool, true, false, not, ◌&&◌, ◌||◌, Option, none, some, List, [], ◌∷◌, any, includes,
  is_some, ◌==◌, if◌then◌else◌,
}
use backend_softlogic.Base.Exec.{Result, ok, err}
use backend_softlogic.Base.Failure.{Failure, canvas_not_found, only_creator_can_edit}
use backend_softlogic.Base.Table.{Row, find}
use backend_softlogic.Access.Roles.{UserRole, Actor, is_super_admin, is_admin_role}
use backend_softlogic.Access.Directory.{Directory, get_linked_student_ids_for_parent}
use backend_softlogic.Access.Managed.{get_managed_organization_ids, manages}

pub record Canvas : Type 0 where
  pub id : String
  pub user_id : String
  pub organization_id : Option String
  pub deleted_at : Option ℕ

instance abbrev pub canvas_row : Row Canvas
canvas_row = record { key = λ c. c.id }

-- What the clauses read of a live session: its board, its participants and its invited users.
pub record SessionLinks : Type 0 where
  pub canvas_id : String
  pub participant_ids : List String
  pub invited_user_ids : List String

pub record CanvasAccessMetadata : Type 0 where
  pub can_edit : Bool
  pub can_delete : Bool
  pub can_host_live_session : Bool

abbrev pub is_live : Canvas → Bool
is_live c = not (is_some c.deleted_at)

-- `{ organizationId: { in: ids } }`
abbrev pub organization_in : List String → Canvas → Bool
organization_in ids c = elim c.organization_id [ none ↦ false | some o ↦ includes o ids ]

-- `organizationIds && organizationIds.length > 0 ? { organizationId: { in: … } } : { id: '__none__' }`
abbrev managed_where : Option (List String) → Canvas → Bool
managed_where none c = c.id == "__none__"
managed_where (some []) c = c.id == "__none__"
managed_where (some (x ∷ xs)) c = organization_in (x ∷ xs) c

abbrev any_in : List String → List String → Bool
any_in ids xs = any (λ x. includes x ids) xs

-- a live session of the board in which the user takes part
abbrev takes_part : List SessionLinks → String → Canvas → Bool
takes_part sessions user_id c =
    any (λ s. (s.canvas_id == c.id) && includes user_id s.participant_ids) sessions

-- the clause of a parent: boards of the linked students and of the sessions that they attend
abbrev pub parent_where : List String → List SessionLinks → Canvas → Bool
parent_where [] sessions c = c.id == "__none__"
parent_where (x ∷ xs) sessions c =
    is_live c
    && (includes c.user_id (x ∷ xs)
        || any
            (λ s.
              (s.canvas_id == c.id)
              && (any_in (x ∷ xs) s.participant_ids || any_in (x ∷ xs) s.invited_user_ids))
            sessions)

unfoldable pub read_for_role : Directory → List SessionLinks → Actor → Canvas → UserRole → Bool
read_for_role dir sessions user c UserRole.teacher = is_live c && (c.user_id == user.user_id)
read_for_role dir sessions user c UserRole.student = is_live c && takes_part sessions user.user_id c
read_for_role dir sessions user c UserRole.parent =
    parent_where (get_linked_student_ids_for_parent dir user.user_id) sessions c
read_for_role dir sessions user c _ = c.id == "__none__"

unfoldable pub canvas_read_where : Directory → List SessionLinks → Actor → Canvas → Bool
unfolding read_for_role
canvas_read_where dir sessions user c =
    if is_super_admin user.role
    then is_live c
    else if is_admin_role user.role
    then is_live c && managed_where (get_managed_organization_ids dir user) c
    else read_for_role dir sessions user c user.role

-- The clause without `id: canvasId`, which `ensure_canvas_write_access` tests by its lookup.
unfoldable pub canvas_write_where : Directory → Actor → Canvas → Bool
canvas_write_where dir user c =
    if is_super_admin user.role
    then is_live c
    else if is_admin_role user.role
    then is_live c && managed_where (get_managed_organization_ids dir user) c
    else is_live c && (c.user_id == user.user_id)

abbrev all_of : Bool → CanvasAccessMetadata
all_of b = record { can_edit = b; can_delete = b; can_host_live_session = b }

-- `organizationIds === null || (canvas.organizationId != null && includes(…))`
abbrev can_manage : Option (List String) → Canvas → Bool
can_manage none c = true
can_manage (some ids) c = organization_in ids c

abbrev pub is_teacher : UserRole → Bool
is_teacher UserRole.teacher = true
is_teacher _ = false

unfoldable pub canvas_access_metadata : Directory → Canvas → Actor → CanvasAccessMetadata
canvas_access_metadata dir c user =
    if is_super_admin user.role
    then all_of true
    else if is_admin_role user.role
    then all_of (can_manage (get_managed_organization_ids dir user) c)
    else all_of (is_teacher user.role && (c.user_id == user.user_id))

-- `findFirst` by the id and a clause
guarded : (Canvas → Bool) → Failure → Option Canvas → Result Canvas
guarded p e none = err e
guarded p e (some c) = if p c then ok c else err e

unfoldable pub ensure_canvas_access :
    Directory → List SessionLinks → List Canvas → String → Actor → Result Canvas
unfolding guarded
ensure_canvas_access dir sessions canvases canvas_id user =
    guarded (canvas_read_where dir sessions user) canvas_not_found (find canvas_id canvases)

unfoldable pub ensure_canvas_write_access : Directory → List Canvas → String → Actor → Result Canvas
unfolding guarded
ensure_canvas_write_access dir canvases canvas_id user =
    guarded (canvas_write_where dir user) only_creator_can_edit (find canvas_id canvases)
