-- ===== src/AppUpdates/Edit.antt =====
-- `updateRelease`: what an edit does to the current release of a channel.
use backend_softlogic.Base.{
  ◌≤◌, String, ◌≡◌, refl, ap, ◌∙◌, sym, subst, ◌⊎◌, inl, inr, true, false, ◌&&◌, ◌||◌, none, some,
  [], ◌∷◌, count, arith, if◌then◌else◌, Bool-cases, Option-cases, eq_iff, ◌==◌, any,
}
use backend_softlogic.Base.Table.{find, update, find-key}
use backend_softlogic.Base.Table.Columns.{IsKeyed}
use backend_softlogic.Access.Roles.{Actor, is_super_admin}
use backend_softlogic.AppUpdates.{
  AppRelease, Releases, UpdateInput, current_in, retire_others, assert_super_admin, changed,
  collides, write_change, change_release, update_release, is_true, is_false, release_row,
}
use backend_softlogic.AppUpdates.Channels.{Channel, same_channel, same_channel_iff}
use backend_softlogic.AppUpdates.Current.{HasOneCurrent}

count-retire_others_le :
    (c d : Channel) (id : String) (rs : Releases)
    → count (current_in d) (retire_others c id rs) ≤ count (current_in d) rs
unfolding retire_others
count-retire_others_le c d id [] = omega arith
count-retire_others_le c d id (r ∷ rs) = ground (arith, count-retire_others_le c d id rs)

-- Editing one row.
module _ (f : AppRelease → AppRelease)
    (channels : (r : AppRelease) → (f r).channel ≡ r.channel) where
  count-update_le :
      (d : Channel) (id : String) (rs : Releases)
      → ((r : AppRelease) → (f r).is_current ≡ true → r.is_current ≡ true)
      → count (current_in d) (update id f rs) ≤ count (current_in d) rs
  unfolding update
  count-update_le d id [] h = omega arith
  count-update_le d id (r ∷ rs) h = ground (arith, h r, channels r, count-update_le d id rs h)

  count-update_other :
      (c d : Channel) (id : String) (existing : AppRelease) (rs : Releases)
      → find id rs ≡ some existing
      → existing.channel ≡ c
      → same_channel c d ≡ false
      → count (current_in d) (update id f (retire_others c id rs)) ≤ count (current_in d) rs
  unfolding update find retire_others
  count-update_other c d id existing [] e same n = absurd (cc)
  count-update_other c d id existing (r ∷ rs) e same n = elim (Bool-cases (r.id == id)) [
    | inl here ↦
        let found : r ≡ existing = ground arith in
        let place : r.channel ≡ c = ap (λ x. x.channel) found ∙ same in
        ground (arith, channels r, count-retire_others_le c d id rs)
    | inr there ↦ ground (arith, count-update_other c d id existing rs)
  ]

  count-retire_others_absent :
      (c : Channel) (id : String) (rs : Releases)
      → find id rs ≡ none
      → count (current_in c) (retire_others c id rs) ≡ 0
  unfolding find retire_others
  count-retire_others_absent c id [] e = refl
  count-retire_others_absent c id (r ∷ rs) e = ground (arith, count-retire_others_absent c id rs)

  count-update_self :
      (c : Channel) (id : String) (rs : Releases)
      → IsKeyed rs
      → count (current_in c) (update id f (retire_others c id rs)) ≤ 1
  unfolding update retire_others
  count-update_self c id [] u = omega arith
  count-update_self c id (r ∷ rs) u = elim (Bool-cases (r.id == id)) [
    | inl same ↦
        let here = (eq_iff r.id id).0 same in
        let zero_left =
          count-retire_others_absent c id rs (subst (λ k. find k rs ≡ none) here u.0) in
        ground (arith, zero_left)
    | inr other ↦ ground (arith, count-update_self c id rs u.1)
  ]

-- the row that an accepted edit found, and what the edit makes of the table
record Edited (id : String) (input : UpdateInput) (rs after : Releases) : Type 0 where
  existing : AppRelease
  found : find id rs ≡ some existing
  allowed : ((is_true input.is_current || existing.is_current) && is_false input.is_active) ≡ false
  written :
      after
      ≡ update existing.id
          (changed input)
          (if is_true input.is_current then retire_others existing.channel existing.id rs else rs)

edited :
    (actor : Actor) (id : String) (input : UpdateInput) (rs : Releases) (existing : AppRelease)
    → find id rs ≡ some existing
    → let after = (update_release actor id input rs).1 in (after ≡ rs) ⊎ Edited id input rs after
unfolding update_release change_release write_change assert_super_admin
edited actor id input rs existing e =
    let guard = (is_true input.is_current || existing.is_current) && is_false input.is_active in
    let spared =
      if is_true input.is_current then retire_others existing.channel existing.id rs else rs in
    elim (Bool-cases (is_super_admin actor.role)) [
      | inr plain ↦ inl (ground arith)
      | inl super ↦ elim (Bool-cases guard) [
        | inl refused ↦ inl (ground arith)
        | inr free ↦ elim (Bool-cases (any (collides input existing) spared)) [
          | inl taken ↦ inl (ground arith)
          | inr fresh ↦
              inr
                (record { existing = existing; found = e; allowed = free; written = ground arith })
        ]
      ]
    ]

update_release-cases :
    (actor : Actor) (id : String) (input : UpdateInput) (rs : Releases)
    → let after = (update_release actor id input rs).1 in (after ≡ rs) ⊎ Edited id input rs after
unfolding update_release assert_super_admin
update_release-cases actor id input rs = elim (Option-cases (find id rs)) [
  | inl e ↦ inl (ground arith)
  | inr (existing, e) ↦ edited actor id input rs existing e
]

HasOneCurrent-written :
    (input : UpdateInput) (existing : AppRelease) (rs : Releases)
    → find existing.id rs ≡ some existing
    → IsKeyed rs
    → HasOneCurrent rs
    → HasOneCurrent (
        update existing.id
          (changed input)
          (if is_true input.is_current then retire_others existing.channel existing.id rs else rs))
HasOneCurrent-written input existing rs e u h d =
    let f = changed input in
    let place : (r : AppRelease) → (f r).channel ≡ r.channel = λ r. unfold changed in refl in
    elim (Bool-cases (is_true input.is_current)) [
      | inr keep_e ↦
          let kept : (r : AppRelease) → (f r).is_current ≡ true → r.is_current ≡ true =
            λ r c. unfold changed in ground arith in
          let le = count-update_le f place d existing.id rs kept in
          let one = h d in rw keep_e (omega arith)
      | inl set_e ↦ elim (Bool-cases (same_channel existing.channel d)) [
        | inl same ↦
            let here = (same_channel_iff existing.channel d).0 same in
            rw set_e (
              subst
                (λ c.
                  count (current_in c)
                    (update existing.id f (retire_others existing.channel existing.id rs))
                  ≤ 1)
                here (count-update_self f place existing.channel existing.id rs u))
        | inr other ↦
            let le =
              count-update_other f place existing.channel d existing.id existing rs e refl other in
            let one = h d in rw set_e (omega arith)
      ]
    ]

-- Editing a release leaves at most one current release in each channel, if there was at most one
-- before and no id occurs twice in the table; so does a refused edit.
pub update_release-HasOneCurrent :
    (actor : Actor) (id : String) (input : UpdateInput) (rs : Releases)
    → IsKeyed rs
    → HasOneCurrent rs
    → HasOneCurrent (update_release actor id input rs).1
update_release-HasOneCurrent actor id input rs u h = elim (update_release-cases actor id input rs) [
  | inl same ↦ subst HasOneCurrent (sym same) h
  | inr e ↦
      subst HasOneCurrent (sym e.written)
        (HasOneCurrent-written input e.existing rs (find-key id e.existing rs e.found) u h)
]
