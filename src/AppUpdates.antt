-- ===== src/AppUpdates.antt =====
-- src/modules/app-updates/app-update.service.ts: the releases of the client apps, and
-- the check that an installed app makes.
pub mod Channels
pub mod Current
pub mod Edit
pub mod Active
pub mod Latest
pub mod Publish
mod Tests
use backend_softlogic.Base.{
  ℕ, suc, ◌+◌, String, Bool, true, false, not, ◌&&◌, ◌||◌, Option, none, some, List, [], ◌∷◌, ◌++◌,
  any, first, keep, ◌==◌, eqb, ltb, leb, or_else, is_some, trim, map, if◌then◌else◌,
}
use backend_softlogic.Base.Exec.{
  Exec, Result, ok, err, pure, raise, lift, gets, or_raise, raise_if, modify, transaction, ◌>>=◌,
  ◌>>◌,
}
use backend_softlogic.Base.Failure.{
  Failure, release_super_admin_only, release_not_found, current_must_be_active, unique_violation,
}
use backend_softlogic.Base.Table.{Row, find, update}
use backend_softlogic.Access.Roles.{Actor, is_super_admin}
use backend_softlogic.AppUpdates.Channels.{Channel, PublicChannel, to_channel, same_channel}

-- `createdAt` is a number of milliseconds, and `releaseDate` the text of a date.
pub record AppRelease : Type 0 where
  pub id : String
  pub channel : Channel
  pub version_name : String
  pub build_number : ℕ
  pub release_date : String
  pub notes : Option String
  pub download_url : String
  pub is_current : Bool
  pub is_active : Bool
  pub created_at : ℕ

abbrev pub Releases : Type 0
Releases = List AppRelease

instance abbrev pub release_row : Row AppRelease
release_row = record { key = λ r. r.id }

-- one of the links that are published together, with the id and the time that its row gets if it is
-- created
pub record Artifact : Type 0 where
  pub channel : PublicChannel
  pub download_url : String
  pub new_id : String
  pub now : ℕ

pub record PublishInput : Type 0 where
  pub version_name : String
  pub build_number : ℕ
  pub release_date : String
  pub notes : Option String

-- `none` is a field that the request leaves out; `notes` may also be null.
pub record UpdateInput : Type 0 where
  pub version_name : Option String
  pub build_number : Option ℕ
  pub release_date : Option String
  pub notes : Option (Option String)
  pub download_url : Option String
  pub is_current : Option Bool
  pub is_active : Option Bool

-- `notes?.trim() || null`
clean_notes : Option String → Option String
clean_notes none = none
clean_notes (some s) = if trim s == "" then none else some (trim s)

abbrev pub in_channel : Channel → AppRelease → Bool
in_channel c r = same_channel r.channel c

abbrev pub current_in : Channel → AppRelease → Bool
current_in c r = in_channel c r && r.is_current

-- `updateMany({ where: { …, isCurrent: true }, data: { isCurrent: false } })`
unfoldable pub retire : Channel → Releases → Releases
retire c [] = []
retire c (r ∷ rs) = (if current_in c r then record r { is_current = false } else r) ∷ retire c rs

-- the same, sparing one id
unfoldable pub retire_others : Channel → String → Releases → Releases
retire_others c id [] = []
retire_others c id (r ∷ rs) =
    (if current_in c r && not (r.id == id) then record r { is_current = false } else r)
    ∷ retire_others c id rs

-- the unique key `environment_brand_platform_buildNumber`
abbrev pub is_build : Channel → ℕ → AppRelease → Bool
is_build c build r = in_channel c r && eqb r.build_number build

republished : PublishInput → Artifact → AppRelease → AppRelease
unfolding clean_notes
republished input a r = record r {
  version_name = input.version_name;
  release_date = input.release_date;
  notes = clean_notes input.notes;
  download_url = a.download_url;
  is_current = true;
  is_active = true;
}

new_release : PublishInput → Artifact → AppRelease
unfolding clean_notes
new_release input a = record {
  id = a.new_id;
  channel = to_channel a.channel;
  version_name = input.version_name;
  build_number = input.build_number;
  release_date = input.release_date;
  notes = clean_notes input.notes;
  download_url = a.download_url;
  is_current = true;
  is_active = true;
  created_at = a.now;
}

-- `upsert` by the unique key: the row that it returns, and the table after it
upserted : PublishInput → Artifact → Releases → AppRelease
unfolding republished new_release
upserted input a rs = elim (first (is_build (to_channel a.channel) input.build_number) rs) [
  | none ↦ new_release input a
  | some r ↦ republished input a r
]

unfoldable pub upsert : PublishInput → Artifact → Releases → Releases
unfolding republished new_release
upsert input a [] = new_release input a ∷ []
upsert input a (r ∷ rs) =
    if is_build (to_channel a.channel) input.build_number r
    then republished input a r ∷ rs
    else r ∷ upsert input a rs

publish_artifact : PublishInput → Artifact → Exec Releases AppRelease
unfolding upserted
publish_artifact input a = do
  modify (retire (to_channel a.channel))
  release ← gets (upserted input a)
  modify (upsert input a)
  pure release

unfoldable pub publish_artifacts : PublishInput → List Artifact → Exec Releases (List AppRelease)
unfolding publish_artifact
publish_artifacts input [] = pure []
publish_artifacts input (a ∷ rest) = do
  release ← publish_artifact input a
  saved ← publish_artifacts input rest
  pure (release ∷ saved)

assert_super_admin : Actor → Exec Releases Unit
assert_super_admin actor = raise_if (not (is_super_admin actor.role)) release_super_admin_only

unfoldable pub publish_full_release :
    Actor → PublishInput → List Artifact → Exec Releases (List AppRelease)
unfolding assert_super_admin
publish_full_release actor input artifacts = do
  assert_super_admin actor
  transaction (publish_artifacts input artifacts)

-- `undefined` leaves a column as it is
changed : UpdateInput → AppRelease → AppRelease
unfolding clean_notes
changed input r = record r {
  version_name = or_else input.version_name r.version_name;
  build_number = or_else input.build_number r.build_number;
  release_date = or_else input.release_date r.release_date;
  notes = elim input.notes [ none ↦ r.notes | some given ↦ clean_notes given ];
  download_url = or_else input.download_url r.download_url;
  is_current = or_else input.is_current r.is_current;
  is_active = or_else input.is_active r.is_active;
}

-- another release that has the key which the change would give to `r`
collides : UpdateInput → AppRelease → AppRelease → Bool
collides input r other =
    not (other.id == r.id) && is_build r.channel (or_else input.build_number r.build_number) other

-- The partial unique index on the current releases of a channel is left out: where the change makes the
-- release current, the others have been retired.
write_change : UpdateInput → AppRelease → Exec Releases AppRelease
unfolding changed collides
write_change input existing = do
  taken ← gets (any (collides input existing))
  raise_if taken unique_violation
  modify (update existing.id (changed input))
  pure (changed input existing)

abbrev pub is_true : Option Bool → Bool
is_true (some true) = true
is_true _ = false

abbrev pub is_false : Option Bool → Bool
is_false (some false) = true
is_false _ = false

change_release : UpdateInput → AppRelease → Exec Releases AppRelease
unfolding write_change
change_release input existing = do
  modify
      (λ rs. if is_true input.is_current then retire_others existing.channel existing.id rs else rs)
  write_change input existing

unfoldable pub update_release : Actor → String → UpdateInput → Exec Releases AppRelease
unfolding assert_super_admin change_release
update_release actor id input = do
  assert_super_admin actor
  found ← gets (find id)
  existing ← or_raise found release_not_found
  raise_if ((is_true input.is_current || existing.is_current) && is_false input.is_active)
      current_must_be_active
  transaction (change_release input existing)

-- `a` comes before `b`: by build number, then by time, both descending
unfoldable pub before : AppRelease → AppRelease → Bool
before a b =
    ltb b.build_number a.build_number
    || (eqb a.build_number b.build_number && leb b.created_at a.created_at)

-- the first of the given releases in that order
unfoldable pub latest : Releases → Option AppRelease
latest [] = none
latest (r ∷ rs) = elim (latest rs) [
  | none ↦ some r
  | some b ↦ if before r b then some r else some b
]

unfoldable pub offered : Channel → AppRelease → Bool
offered c r = in_channel c r && r.is_active && r.is_current

pub record UpdateCheck : Type 0 where
  pub update_available : Bool
  pub release : Option AppRelease

-- `!latest || latest.buildNumber <= query.buildNumber`
answer : ℕ → Option AppRelease → UpdateCheck
answer build none = record { update_available = false; release = none }
answer build (some r) = record { update_available = ltb build r.build_number; release = some r }

unfoldable pub check_for_update : PublicChannel → ℕ → Releases → UpdateCheck
unfolding answer offered
check_for_update channel build_number rs =
    answer build_number (latest (keep (offered (to_channel channel)) rs))
