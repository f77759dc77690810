-- ===== src/AppUpdates/Tests.antt =====
-- Runs of the release service: publishing over an earlier build, editing, and the check of an app.
use backend_softlogic.Base.{
  ◌≡◌, ◌↔◌, ◌⊎◌, refl, ℕ, String, [], ◌∷◌, none, some, Bool, true, false, not, ◌&&◌, arith, any,
  is_some, ltb,
}
use backend_softlogic.Base.Table.{find}
use backend_softlogic.Access.Roles.{UserRole, Actor, is_super_admin}
use backend_softlogic.AppUpdates.{
  AppRelease, Releases, Artifact, PublishInput, UpdateInput, release_row, publish_full_release,
  update_release, retire_others, offered, check_for_update,
}
use backend_softlogic.AppUpdates.Channels.{
  PublicReleaseEnvironment, PublicReleaseBrand, PublicReleasePlatform, PublicChannel, to_channel,
  same_channel,
}
use backend_softlogic.AppUpdates.Publish.{publish_full_release-check}
use backend_softlogic.AppUpdates.Current.{HasOneCurrent, publish_full_release-HasOneCurrent}
use backend_softlogic.AppUpdates.Edit.{update_release-HasOneCurrent}
use backend_softlogic.AppUpdates.Active.{update_release-inactive_iff}
use backend_softlogic.AppUpdates.Latest.{IsLatest, check_for_update-IsLatest}

abbrev android : PublicChannel
android = record {
  environment = PublicReleaseEnvironment.production;
  brand = PublicReleaseBrand.softlogic;
  platform = PublicReleasePlatform.android;
}

abbrev windows : PublicChannel
windows = record android { platform = PublicReleasePlatform.windows }

abbrev admin : Actor
admin = record { user_id = "root"; role = UserRole.super_admin; organization_id = none }

abbrev release : String → ℕ → Bool → Bool → AppRelease
release id build current active = record {
  id = id;
  channel = to_channel android;
  version_name = "1.0";
  build_number = build;
  release_date = "2025-01-01";
  notes = none;
  download_url = "old";
  is_current = current;
  is_active = active;
  created_at = build;
}

abbrev table : Releases
table = release "a" 7 true true ∷ release "b" 9 false false ∷ []

table-HasOneCurrent : HasOneCurrent table
table-HasOneCurrent c = ground (arith)

abbrev input : PublishInput
input = record { version_name = "2.0"; build_number = 8; release_date = "2025-02-01"; notes = none }

abbrev link : PublicChannel → Artifact
link channel = record { channel = channel; download_url = "new"; new_id = "n"; now = 100 }

publish_full_release-check_example :
    (r : AppRelease) × ((r.version_name ≡ "2.0") × (r.build_number ≡ 8) × (r.download_url ≡ "new"))
    × (check_for_update android 7
          (publish_full_release admin input (link android ∷ link windows ∷ []) table).1
        ≡ record { update_available = ltb 7 8; release = some r })
unfolding is_super_admin same_channel
publish_full_release-check_example =
    publish_full_release-check admin input [] (link android) (link windows ∷ []) table 7 refl
      (refl, tt)

publish_full_release-HasOneCurrent_example :
    HasOneCurrent (publish_full_release admin input (link android ∷ link android ∷ []) table).1
publish_full_release-HasOneCurrent_example =
    publish_full_release-HasOneCurrent admin input (link android ∷ link android ∷ []) table
      table-HasOneCurrent

abbrev make_current : UpdateInput
make_current = record {
  version_name = none;
  build_number = none;
  release_date = none;
  notes = none;
  download_url = none;
  is_current = some true;
  is_active = none;
}

update_release-HasOneCurrent_example : HasOneCurrent (update_release admin "b" make_current table).1
unfolding find
update_release-HasOneCurrent_example =
    update_release-HasOneCurrent admin "b" make_current table (refl, (refl, tt)) table-HasOneCurrent

-- the release that the edit leaves current, and not active
abbrev left : AppRelease
left = release "b" 9 true false

update_release-inactive_iff_example :
    ((left.is_current && not left.is_active) ≡ true)
    ↔ ((true && not (is_some make_current.is_active) && not false) ≡ true)
unfolding find update_release is_super_admin retire_others same_channel
update_release-inactive_iff_example =
    update_release-inactive_iff admin "b" make_current table (release "b" 9 false false) left refl
      (λ e. cc) refl

check_for_update-IsLatest_example :
    let check = check_for_update android 5 table in
    ((r : AppRelease) × ((check.release ≡ some r)
        × IsLatest (offered (to_channel android)) table r
        × (check.update_available ≡ ltb 5 r.build_number)))
    ⊎ ((check.release ≡ none)
        × (any (offered (to_channel android)) table ≡ false)
        × (check.update_available ≡ false))
check_for_update-IsLatest_example = check_for_update-IsLatest android 5 table
