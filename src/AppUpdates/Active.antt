-- ===== src/AppUpdates/Active.antt =====
-- `isActive`: when an edit leaves a current release that is not active.
use backend_softlogic.Base.{
  String, ◌≡◌, ◌↔◌, sym, subst, inl, inr, true, false, not, ◌&&◌, ◌||◌, some, arith, if◌then◌else◌,
  Bool-cases, any, is_some,
}
use backend_softlogic.Base.Exec.{ok}
use backend_softlogic.Base.Table.{find}
use backend_softlogic.Access.Roles.{Actor, is_super_admin}
use backend_softlogic.AppUpdates.{
  AppRelease, Releases, UpdateInput, retire_others, assert_super_admin, changed, collides,
  write_change, change_release, update_release, is_true, is_false, release_row,
}

result :
    (actor : Actor) (id : String) (input : UpdateInput) (rs : Releases) (existing r : AppRelease)
    → find id rs ≡ some existing
    → (update_release actor id input rs).0 ≡ ok r
    → (r ≡ changed input existing)
      × (((is_true input.is_current || existing.is_current) && is_false input.is_active) ≡ false)
unfolding update_release change_release write_change assert_super_admin
result actor id input rs existing r e h =
    let guard = (is_true input.is_current || existing.is_current) && is_false input.is_active in
    let spared =
      if is_true input.is_current then retire_others existing.channel existing.id rs else rs in
    elim (Bool-cases (is_super_admin actor.role)) [
      | inr plain ↦ absurd (ground arith)
      | inl super ↦ elim (Bool-cases guard) [
        | inl refused ↦ absurd (ground arith)
        | inr free ↦ elim (Bool-cases (any (collides input existing) spared)) [
          | inl taken ↦ absurd (ground arith)
          | inr fresh ↦ (ground arith, free)
        ]
      ]
    ]

-- The error `A current release must be active` does not keep every current release active. An edit
-- that is accepted leaves its release current and not active exactly if it marks as current a release
-- that was not active, and says nothing of `isActive`; the release being active before if it was
-- current.
pub update_release-inactive_iff :
    (actor : Actor) (id : String) (input : UpdateInput) (rs : Releases) (existing r : AppRelease)
    → find id rs ≡ some existing
    → (existing.is_current ≡ true → existing.is_active ≡ true)
    → (update_release actor id input rs).0 ≡ ok r
    → ((r.is_current && not r.is_active) ≡ true) ↔ (
        (is_true input.is_current && not (is_some input.is_active) && not existing.is_active)
        ≡ true)
update_release-inactive_iff actor id input rs existing r e active h =
    let (same, free) = result actor id input rs existing r e h in
    subst
      (λ x. ((x.is_current && not x.is_active) ≡ true) ↔ (
        (is_true input.is_current && not (is_some input.is_active) && not existing.is_active)
        ≡ true))
      (sym same) (unfold changed in ground arith)
