-- ===== src/AppUpdates/Current.antt =====
-- `isCurrent`: what publishing does to the current release of a channel.
use backend_softlogic.Base.{
  ◌+◌, ◌≤◌, ◌≡◌, refl, inl, inr, not, List, [], ◌∷◌, count, arith, if◌then◌else◌, Bool-cases,
}
use backend_softlogic.Base.Exec.{raise_if}
use backend_softlogic.Base.Keeps.{
  Keeps, Keeps-bind, Keeps-pure, Keeps-raise_if, Keeps-transaction, keeps_rules,
}
use backend_softlogic.Base.Failure.{release_super_admin_only}
use backend_softlogic.Access.Roles.{Actor, is_super_admin}
use backend_softlogic.AppUpdates.{
  Releases, Artifact, PublishInput, current_in, retire, republished, new_release, upsert,
  publish_artifact, publish_artifacts, publish_full_release, assert_super_admin, release_row,
}
use backend_softlogic.AppUpdates.Channels.{Channel, to_channel, same_channel, same_channel_iff}

-- At most one release of each channel is marked as current.
abbrev pub HasOneCurrent : Releases → Type 0
HasOneCurrent rs = (c : Channel) → count (current_in c) rs ≤ 1

count-retire : (c : Channel) (rs : Releases) → count (current_in c) (retire c rs) ≡ 0
unfolding retire
count-retire c [] = refl
count-retire c (r ∷ rs) = ground (arith, count-retire c rs)

count-retire_le :
    (c d : Channel) (rs : Releases) → count (current_in d) (retire c rs) ≤ count (current_in d) rs
unfolding retire
count-retire_le c d [] = omega arith
count-retire_le c d (r ∷ rs) = ground (arith, count-retire_le c d rs)

module _ (input : PublishInput) (a : Artifact) where
  count-upsert :
      (d : Channel) (rs : Releases)
      → count (current_in d) (upsert input a rs)
        ≤ (if same_channel (to_channel a.channel) d then 1 else 0) + count (current_in d) rs
  unfolding upsert new_release republished
  count-upsert d [] = ground arith
  count-upsert d (r ∷ rs) =
      ground (arith, same_channel_iff r.channel (to_channel a.channel), count-upsert d rs)

  HasOneCurrent-upsert :
      (rs : Releases)
      → HasOneCurrent rs
      → HasOneCurrent (upsert input a (retire (to_channel a.channel) rs))
  HasOneCurrent-upsert rs h d = elim (Bool-cases (same_channel (to_channel a.channel) d)) [
    | inl same ↦ ground (
      arith,
      same_channel_iff (to_channel a.channel) d,
      count-upsert d (retire (to_channel a.channel) rs),
      count-retire d rs,
    )
    | inr other ↦ ground (
      arith,
      h d,
      count-upsert d (retire (to_channel a.channel) rs),
      count-retire_le (to_channel a.channel) d rs,
    )
  ]

-- What survives the publication of one link survives that of them all.
module _ (P : Releases → Type 0) (input : PublishInput)
    (one : (a : Artifact) → Keeps P (publish_artifact input a)) where
  publish_artifacts-Keeps :
      (artifacts : List Artifact) → Keeps P (publish_artifacts input artifacts)
  unfolding publish_artifacts
  publish_artifacts-Keeps [] = search keeps_rules
  publish_artifacts-Keeps (a ∷ rest) = Keeps-bind (publish_artifact input a) _ (one a) (λ release.
      Keeps-bind (publish_artifacts input rest) _ (publish_artifacts-Keeps rest)
        (λ saved. Keeps-pure (release ∷ saved)))

  publish-Keeps :
      (actor : Actor) (artifacts : List Artifact)
      → Keeps P (publish_full_release actor input artifacts)
  unfolding publish_full_release assert_super_admin
  publish-Keeps actor artifacts =
      Keeps-bind (raise_if (not (is_super_admin actor.role)) release_super_admin_only) _
        (Keeps-raise_if (not (is_super_admin actor.role)) release_super_admin_only)
        (λ _.
          Keeps-transaction (publish_artifacts input artifacts) (publish_artifacts-Keeps artifacts))

publish_artifact-HasOneCurrent :
    (input : PublishInput) (a : Artifact) → Keeps HasOneCurrent (publish_artifact input a)
unfolding publish_artifact
publish_artifact-HasOneCurrent input a = record { at = λ rs h. HasOneCurrent-upsert input a rs h }

-- Publishing a build for any list of channels, the same channel twice included, leaves at most one
-- current release in each channel, if there was at most one before; so does a refused request.
pub publish_full_release-HasOneCurrent :
    (actor : Actor) (input : PublishInput) (artifacts : List Artifact) (rs : Releases)
    → HasOneCurrent rs
    → HasOneCurrent (publish_full_release actor input artifacts rs).1
publish_full_release-HasOneCurrent actor input artifacts rs h =
    (publish-Keeps HasOneCurrent input (publish_artifact-HasOneCurrent input) actor artifacts).at rs
      h
