-- ===== src/Access/Canvas/Agreement.antt =====
-- The reported permissions against the clauses that guard reading and writing.
use backend_softlogic.Base.{
  ap, sym, ◌∙◌, ◌↔◌, subst, String, ◌≡◌, refl, ◌≢◌, Bool, true, false, Option, none, some, List, [],
  ◌∷◌, arith, eq_iff, Bool-cases, ◌⊎◌, inl, inr,
}
use backend_softlogic.Base.Exec.{ok, err}
use backend_softlogic.Base.Failure.{canvas_not_found, only_creator_can_edit, Failure}
use backend_softlogic.Base.Table.{find}
use backend_softlogic.Access.Roles.{UserRole, Actor, is_super_admin, is_admin_role}
use backend_softlogic.Access.Directory.{Directory, get_linked_student_ids_for_parent}
use backend_softlogic.Access.Managed.{get_managed_organization_ids}
use backend_softlogic.Access.Canvas.{
  Canvas, canvas_row, SessionLinks, canvas_read_where, canvas_write_where, canvas_access_metadata,
  ensure_canvas_access, ensure_canvas_write_access, guarded, takes_part, parent_where,
  read_for_role, managed_where, can_manage, is_live, is_teacher,
}

-- `canManage` is true only for a managed organization, and then the clause lets the board through.
can_manage-managed_where :
    (ids : Option (List String)) (c : Canvas)
    → ids ≢ none
    → can_manage ids c ≡ true
    → managed_where ids c ≡ true
can_manage-managed_where none c n h = absurd (n refl)
can_manage-managed_where (some []) c n h = ground arith
can_manage-managed_where (some (x ∷ xs)) c n h = h

managed_where-can_manage :
    (ids : Option (List String)) (c : Canvas)
    → ◌≢◌ {A = String} c.id "__none__"
    → managed_where ids c ≡ true
    → can_manage ids c ≡ true
managed_where-can_manage none c n h = refl
managed_where-can_manage (some []) c n h = absurd (n ((eq_iff c.id "__none__").0 h))
managed_where-can_manage (some (x ∷ xs)) c n h = h

plain_role_managed :
    (dir : Directory) (user_id : String) (org : Option String) (role : UserRole)
    → is_super_admin role ≡ false
    → get_managed_organization_ids dir
        (record { user_id = user_id; role = role; organization_id = org })
      ≢ none
unfolding get_managed_organization_ids is_super_admin
plain_role_managed dir user_id org UserRole.super_admin h e = cc
plain_role_managed dir user_id org _ h e = cc

-- Whoever is told that they may edit, delete or host a live board passes the clauses for writing it
-- and for reading it.
pub can_edit_clauses :
    (dir : Directory) (sessions : List SessionLinks) (user : Actor) (c : Canvas)
    → c.deleted_at ≡ none
    → (canvas_access_metadata dir c user).can_edit ≡ true
    → (canvas_write_where dir user c ≡ true) × (canvas_read_where dir sessions user c ≡ true)
unfolding canvas_access_metadata canvas_write_where canvas_read_where
can_edit_clauses dir sessions user c live h =
    let n = plain_role_managed dir user.user_id user.organization_id user.role in
    let ids = get_managed_organization_ids dir user in
    let k = can_manage-managed_where ids c in
    elim (Bool-cases (is_super_admin user.role)) [
      | inl s ↦ ground arith
      | inr p ↦ let pass = k (n p) in ground arith
    ]

guarded-ok :
    (p : Canvas → Bool) (e : Failure) (found : Option Canvas) (c : Canvas)
    → guarded p e found ≡ ok c
    → (found ≡ some c) × (p c ≡ true)
unfolding guarded
guarded-ok p e none c h = absurd (cc)
guarded-ok p e (some x) c h = elim (Bool-cases (p x)) [
  | inl t ↦ let same : x ≡ c = ground arith in (ap some same, subst (λ y. p y ≡ true) same t)
  | inr f ↦ absurd (ground arith)
]

-- A board that `ensureCanvasWriteAccess` hands out has the id that was asked for and is not deleted,
-- and the user is told that they may edit it, or owns it without being a teacher or an admin.
pub ensure_canvas_write_access-ok :
    (dir : Directory) (canvases : List Canvas) (canvas_id : String) (user : Actor) (c : Canvas)
    → ◌≢◌ {A = String} c.id "__none__"
    → ensure_canvas_write_access dir canvases canvas_id user ≡ ok c
    → (find canvas_id canvases ≡ some c)
      × (is_live c ≡ true)
      × (((canvas_access_metadata dir c user).can_edit ≡ true)
          ⊎ ((is_admin_role user.role ≡ false)
              × (is_teacher user.role ≡ false)
              × (c.user_id ≡ user.user_id)))
unfolding ensure_canvas_write_access canvas_write_where canvas_access_metadata
ensure_canvas_write_access-ok dir canvases canvas_id user c n h =
    let (f, w) = guarded-ok (canvas_write_where dir user) only_creator_can_edit _ c h in
    let ids = get_managed_organization_ids dir user in
    let k = managed_where-can_manage ids c n in
    (f, ground arith, ground (arith, eq_iff c.user_id user.user_id))

-- What keeps the role from reading a board that its user owns: a student takes part in none of its live
-- sessions, and for a parent no linked student owns it or is a participant or a guest of one.
abbrev pub KeptFrom : Directory → List SessionLinks → Actor → Canvas → UserRole → Type 0
KeptFrom dir sessions user c UserRole.student = takes_part sessions user.user_id c ≡ false
KeptFrom dir sessions user c UserRole.parent =
    parent_where (get_linked_student_ids_for_parent dir user.user_id) sessions c ≡ false
KeptFrom dir sessions user c _ = ⊥

-- the board is handed out for writing and refused for reading
abbrev pub WriteNotRead : Directory → List SessionLinks → List Canvas → Actor → Canvas → Type 0
WriteNotRead dir sessions canvases user c =
    (ensure_canvas_write_access dir canvases c.id user ≡ ok c)
    × (ensure_canvas_access dir sessions canvases c.id user ≡ err canvas_not_found)

module _ (dir : Directory) (sessions : List SessionLinks) (canvases : List Canvas) (user : Actor)
    (c : Canvas) (found : find c.id canvases ≡ some c) where
  owner_without_read :
      (role : UserRole)
      → user.role ≡ role
      → is_live c ≡ true
      → c.user_id ≡ user.user_id
      → KeptFrom dir sessions user c role
      → WriteNotRead dir sessions canvases user c
  unfolding ensure_canvas_write_access ensure_canvas_access canvas_write_where canvas_read_where
      read_for_role is_super_admin is_admin_role
  owner_without_read UserRole.student r live own away =
      (ground (arith, eq_iff c.user_id user.user_id), ground (arith, eq_iff c.user_id user.user_id))
  owner_without_read UserRole.parent r live own away =
      (ground (arith, eq_iff c.user_id user.user_id), ground (arith, eq_iff c.user_id user.user_id))
  owner_without_read _ r live own away = absurd (ground arith)

  role_of_writer :
      (role : UserRole)
      → user.role ≡ role
      → canvas_write_where dir user c ≡ true
      → canvas_read_where dir sessions user c ≡ false
      → (is_live c ≡ true) × (c.user_id ≡ user.user_id) × KeptFrom dir sessions user c role
  unfolding canvas_write_where canvas_read_where read_for_role is_super_admin is_admin_role
  role_of_writer UserRole.student r w n =
      let q = eq_iff c.user_id user.user_id in (ground arith, ground arith, ground arith)
  role_of_writer UserRole.parent r w n =
      let q = eq_iff c.user_id user.user_id in (ground arith, ground arith, ground arith)
  role_of_writer UserRole.teacher r w n = absurd (ground arith)
  role_of_writer UserRole.admin r w n = absurd (ground arith)
  role_of_writer UserRole.customer_admin r w n = absurd (ground arith)
  role_of_writer UserRole.partner_admin r w n = absurd (ground arith)
  role_of_writer UserRole.super_admin r w n = absurd (ground arith)

  handed_out :
      WriteNotRead dir sessions canvases user c
      → (canvas_write_where dir user c ≡ true) × (canvas_read_where dir sessions user c ≡ false)
  unfolding ensure_canvas_write_access ensure_canvas_access guarded
  handed_out (w, r) = (
    (guarded-ok (canvas_write_where dir user) only_creator_can_edit (some c) c
        (ap (guarded (canvas_write_where dir user) only_creator_can_edit) (sym found) ∙ w)).1,
    elim (Bool-cases (canvas_read_where dir sessions user c)) [
      | inl t ↦ absurd (ground (arith, found, t))
      | inr f ↦ f
    ],
  )

-- Of a board in the table: it is handed out for writing and refused for reading exactly if it is live, the
-- user owns it, and is a student who takes part in none of its live sessions, or a parent of whom no
-- linked student owns it or is a participant or a guest of one of its live sessions.
pub write_without_read_iff :
    (dir : Directory) (sessions : List SessionLinks) (canvases : List Canvas) (user : Actor)
    (c : Canvas)
    → find c.id canvases ≡ some c
    → WriteNotRead dir sessions canvases user c
      ↔ ((is_live c ≡ true) × (c.user_id ≡ user.user_id) × KeptFrom dir sessions user c user.role)
write_without_read_iff dir sessions canvases user c found = (
  λ h.
      let (w, n) = handed_out dir sessions canvases user c found h in
      role_of_writer dir sessions canvases user c found user.role refl w n,
  λ h.
      let (live, own, away) = h in
      owner_without_read dir sessions canvases user c found user.role refl live own away,
)
