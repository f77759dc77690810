-- ===== src/AppUpdates/Publish.antt =====
-- `publishFullRelease` as a function of the table, and what a check answers after it.
use backend_softlogic.Base.{
  first_holds, ℕ, ◌≡◌, refl, ap, ◌∙◌, true, false, some, List, [], ◌∷◌, ◌++◌, keep, first, All,
  arith, ltb, Option-cases, inl, inr,
}
use backend_softlogic.Base.Exec.{ok}
use backend_softlogic.Access.Roles.{Actor, is_super_admin}
use backend_softlogic.AppUpdates.{
  AppRelease, Releases, Artifact, PublishInput, is_build, retire, republished, new_release,
  upserted, upsert, publish_artifacts, publish_full_release, offered, latest, check_for_update,
  answer,
}
use backend_softlogic.AppUpdates.Channels.{
  Channel, PublicChannel, to_channel, same_channel, same_channel_iff,
}

publish_one : PublishInput → Artifact → Releases → Releases
publish_one input a rs = upsert input a (retire (to_channel a.channel) rs)

publish_all : PublishInput → List Artifact → Releases → Releases
publish_all input [] rs = rs
publish_all input (a ∷ rest) rs = publish_all input rest (publish_one input a rs)

publish_artifacts-all :
    (input : PublishInput) (artifacts : List Artifact) (rs : Releases)
    → (saved : List AppRelease) × (publish_artifacts input artifacts rs
        ≡ (ok saved, publish_all input artifacts rs))
unfolding publish_artifacts publish_all publish_one
publish_artifacts-all input [] rs = ([], refl)
publish_artifacts-all input (a ∷ rest) rs =
    let (saved, e) = publish_artifacts-all input rest (publish_one input a rs) in
    (upserted input a (retire (to_channel a.channel) rs) ∷ saved, ground (arith, e))

publish_all-append :
    (input : PublishInput) (xs ys : List Artifact) (rs : Releases)
    → publish_all input (xs ++ ys) rs ≡ publish_all input ys (publish_all input xs rs)
unfolding publish_all
publish_all-append input [] ys rs = refl
publish_all-append input (x ∷ xs) ys rs = publish_all-append input xs ys (publish_one input x rs)

keep-retire : (c : Channel) (rs : Releases) → keep (offered c) (retire c rs) ≡ []
unfolding retire offered
keep-retire c [] = refl
keep-retire c (r ∷ rs) = ground (arith, keep-retire c rs)

keep-retire_other :
    (c d : Channel) (rs : Releases)
    → same_channel d c ≡ false
    → keep (offered c) (retire d rs) ≡ keep (offered c) rs
unfolding retire offered
keep-retire_other c d [] n = refl
keep-retire_other c d (r ∷ rs) n =
    ground (arith, same_channel_iff r.channel d, keep-retire_other c d rs n)

module _ (input : PublishInput) (a : Artifact) where
  keep-upsert :
      (rs : Releases)
      → keep (offered (to_channel a.channel)) rs ≡ []
      → keep (offered (to_channel a.channel)) (upsert input a rs) ≡ upserted input a rs ∷ []
  unfolding offered upsert upserted new_release republished
  keep-upsert [] h = ground (arith, same_channel_iff (to_channel a.channel) (to_channel a.channel))
  keep-upsert (r ∷ rs) h = ground (arith, keep-upsert rs)

  keep-upsert_other :
      (c : Channel) (rs : Releases)
      → same_channel (to_channel a.channel) c ≡ false
      → keep (offered c) (upsert input a rs) ≡ keep (offered c) rs
  unfolding offered upsert new_release republished
  keep-upsert_other c [] n = ground arith
  keep-upsert_other c (r ∷ rs) n =
      ground (arith, same_channel_iff r.channel (to_channel a.channel), keep-upsert_other c rs n)

  -- the row that an artifact leaves
  record Published (r : AppRelease) : Type 0 where
    name : r.version_name ≡ input.version_name
    build : r.build_number ≡ input.build_number
    url : r.download_url ≡ a.download_url

  upserted-Published : (rs : Releases) → Published (upserted input a rs)
  unfolding upserted new_release republished
  upserted-Published rs =
      elim (Option-cases (first (is_build (to_channel a.channel) input.build_number) rs)) [
        | inl e ↦ rw (upserted, e) (record { name = refl; build = refl; url = refl })
        | inr (r, e) ↦
            let holds = first_holds (is_build (to_channel a.channel) input.build_number) r rs e in
            rw (upserted, e) (record { name = refl; build = ground arith; url = refl })
      ]

-- Later links for other channels leave alone what a channel offers.
keep-publish_all :
    (input : PublishInput) (c : Channel) (later : List Artifact) (rs : Releases)
    → All (λ b. same_channel (to_channel b.channel) c ≡ false) later
    → keep (offered c) (publish_all input later rs) ≡ keep (offered c) rs
unfolding publish_all publish_one
keep-publish_all input c [] rs h = refl
keep-publish_all input c (b ∷ later) rs h =
    keep-publish_all input c later (publish_one input b rs) h.1
    ∙ keep-upsert_other input b c (retire (to_channel b.channel) rs) h.0
    ∙ keep-retire_other c (to_channel b.channel) rs h.0

publish_full_release-all :
    (actor : Actor) (input : PublishInput) (artifacts : List Artifact) (rs : Releases)
    → is_super_admin actor.role ≡ true
    → (publish_full_release actor input artifacts rs).1 ≡ publish_all input artifacts rs
unfolding publish_full_release
publish_full_release-all actor input artifacts rs super =
    let (saved, e) = publish_artifacts-all input artifacts rs in ground (arith, e)

check_for_update-one :
    (p : PublicChannel) (build : ℕ) (rs : Releases) (r : AppRelease)
    → keep (offered (to_channel p)) rs ≡ r ∷ []
    → check_for_update p build rs
      ≡ record { update_available = ltb build r.build_number; release = some r }
unfolding check_for_update latest answer
check_for_update-one p build rs r h = rw h refl

-- A super admin publishes a build for a list of channels. If no later link of the list is for the
-- channel of the link `a`, then the check of an installed app of that channel is answered with the
-- published version, its build number and the url of `a`, and it says that an update is available
-- exactly if the installed build is lower. This holds whatever releases were there before, with
-- lower or higher builds.
pub publish_full_release-check :
    (actor : Actor) (input : PublishInput) (earlier : List Artifact) (a : Artifact)
    (later : List Artifact) (rs : Releases) (build : ℕ)
    → is_super_admin actor.role ≡ true
    → All (λ b. same_channel (to_channel b.channel) (to_channel a.channel) ≡ false) later
    → (r : AppRelease) × ((r.version_name ≡ input.version_name)
        × (r.build_number ≡ input.build_number)
        × (r.download_url ≡ a.download_url))
      × (check_for_update a.channel build
            (publish_full_release actor input (earlier ++ a ∷ later) rs).1
          ≡ record { update_available = ltb build input.build_number; release = some r })
unfolding publish_all publish_one
publish_full_release-check actor input earlier a later rs build super other =
    let c = to_channel a.channel in
    let start = retire c (publish_all input earlier rs) in
    let r = upserted input a start in
    let kept =
      ap (keep (offered c)) (
        publish_full_release-all actor input (earlier ++ a ∷ later) rs super
        ∙ publish_all-append input earlier (a ∷ later) rs)
      ∙ keep-publish_all input c later (upsert input a start) other
      ∙ keep-upsert input a start (keep-retire c (publish_all input earlier rs)) in
    let row = upserted-Published input a start in
    let after = (publish_full_release actor input (earlier ++ a ∷ later) rs).1 in
    (
      r,
      (row.name, row.build, row.url),
      check_for_update-one a.channel build after r kept
          ∙ ap (λ n. record { update_available = ltb build n; release = some r }) row.build,
    )
