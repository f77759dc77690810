-- ===== src/AppUpdates/Latest.antt =====
-- What `checkForUpdate` answers: `findFirst` in descending order of builds.
use backend_softlogic.Base.{
  ℕ, ◌≤◌, ◌≡◌, refl, ap, subst, sym, ◌⊎◌, inl, inr, Bool, true, false, none, some, [], ◌∷◌, keep,
  All, any, arith, ltb, Bool-cases, Option-cases,
}
use mathlib.Core.List.{Memᴰ}
use backend_softlogic.AppUpdates.{
  AppRelease, Releases, before, offered, latest, check_for_update, answer,
}
use backend_softlogic.AppUpdates.Channels.{PublicChannel, to_channel}

-- `r` is one of the releases `rs`, the releases that pass a test, and none of those has a higher build.
pub record IsLatest (p : AppRelease → Bool) (rs : Releases) (r : AppRelease) : Type 0 where
  pub member : Memᴰ r rs
  pub passes : p r ≡ true
  pub bounds : All (λ x. p x ≡ true → x.build_number ≤ r.build_number) rs

latest-none : (p : AppRelease → Bool) (rs : Releases) → latest (keep p rs) ≡ none → any p rs ≡ false
unfolding latest
latest-none p [] h = refl
latest-none p (r ∷ rs) h = ground (arith, latest-none p rs)

bounded :
    (p : AppRelease → Bool) (b : ℕ) (rs : Releases)
    → any p rs ≡ false
    → All (λ x. p x ≡ true → x.build_number ≤ b) rs
bounded p b [] h = tt
bounded p b (r ∷ rs) h = (λ e. absurd (ground arith), bounded p b rs (ground arith))

weaker :
    (p : AppRelease → Bool) (a b : ℕ) (rs : Releases)
    → a ≤ b
    → All (λ x. p x ≡ true → x.build_number ≤ a) rs
    → All (λ x. p x ≡ true → x.build_number ≤ b) rs
weaker p a b [] le h = tt
weaker p a b (r ∷ rs) le h = (λ e. let one = h.0 e in omega arith, weaker p a b rs le h.1)

latest-IsLatest :
    (p : AppRelease → Bool) (r : AppRelease) (rs : Releases)
    → latest (keep p rs) ≡ some r
    → IsLatest p rs r
unfolding latest before
latest-IsLatest p r [] h = absurd (cc)
latest-IsLatest p r (x ∷ rs) h = elim (Bool-cases (p x)) [
  | inr out ↦
      let later = latest-IsLatest p r rs (ground arith) in
      record {
        member = Memᴰ.tail later.member;
        passes = later.passes;
        bounds = (λ e. absurd (cc), later.bounds);
      }
  | inl in_p ↦ elim (Option-cases (latest (keep p rs))) [
    | inl none_e ↦
        let same : x ≡ r = ground arith in
        record {
          member = Memᴰ.head (sym same);
          passes = cc;
          bounds = (λ e. ground arith, bounded p r.build_number rs (latest-none p rs none_e));
        }
    | inr (b, some_e) ↦
        let later = latest-IsLatest p b rs some_e in
        elim (Bool-cases (before x b)) [
          | inl first_e ↦
              let same : x ≡ r = ground arith in
              let le : b.build_number ≤ r.build_number = ground arith in
              record {
                member = Memᴰ.head (sym same);
                passes = cc;
                bounds =
                    (λ e. ground arith, weaker p b.build_number r.build_number rs le later.bounds);
              }
          | inr after_e ↦
              let same : b ≡ r = ground arith in
              let le : x.build_number ≤ b.build_number = ground arith in
              subst (IsLatest p (x ∷ rs)) same (record {
                member = Memᴰ.tail later.member;
                passes = later.passes;
                bounds = (λ e. le, later.bounds);
              })
        ]
  ]
]

-- The answer to the check of an installed app. If it carries a release, that release is in the
-- table, it is a current and active one of the app's channel, no such release has a higher build, and
-- an update is available exactly if the installed build is lower. If it carries none, there is no
-- current and active release of the channel, and no update is available.
pub check_for_update-IsLatest :
    (p : PublicChannel) (build : ℕ) (rs : Releases)
    → let check = check_for_update p build rs in
      ((r : AppRelease) × ((check.release ≡ some r)
          × IsLatest (offered (to_channel p)) rs r
          × (check.update_available ≡ ltb build r.build_number)))
      ⊎ ((check.release ≡ none)
          × (any (offered (to_channel p)) rs ≡ false)
          × (check.update_available ≡ false))
unfolding check_for_update answer
check_for_update-IsLatest p build rs =
    let c = offered (to_channel p) in
    elim (Option-cases (latest (keep c rs))) [
      | inl e ↦ inr (
        ap (λ o. (answer build o).release) e,
        latest-none c rs e,
        ap (λ o. (answer build o).update_available) e,
      )
      | inr (r, e) ↦ inl (
        r,
        (
          ap (λ o. (answer build o).release) e,
          latest-IsLatest c r rs e,
          ap (λ o. (answer build o).update_available) e,
        ),
      )
    ]
