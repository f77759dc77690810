-- ===== src/AppUpdates/Channels.antt =====
-- src/modules/app-updates/app-update.mapper.ts: the channel of a release, as the API spells it and as the
-- database does.
use backend_softlogic.Base.{◌≡◌, ◌↔◌, Bool, true, false, ◌&&◌, arith}

pub data PublicReleaseEnvironment : Type 0 where
  staging production : PublicReleaseEnvironment

pub data PublicReleaseBrand : Type 0 where
  softlogic ai_smart_board : PublicReleaseBrand

pub data PublicReleasePlatform : Type 0 where
  android windows : PublicReleasePlatform

pub data AppReleaseEnvironment : Type 0 where
  staging production : AppReleaseEnvironment

pub data AppReleaseBrand : Type 0 where
  softlogic ai_smart_board : AppReleaseBrand

pub data AppReleasePlatform : Type 0 where
  android windows : AppReleasePlatform

pub record PublicChannel : Type 0 where
  pub environment : PublicReleaseEnvironment
  pub brand : PublicReleaseBrand
  pub platform : PublicReleasePlatform

pub record Channel : Type 0 where
  pub environment : AppReleaseEnvironment
  pub brand : AppReleaseBrand
  pub platform : AppReleasePlatform

abbrev pub to_release_environment : PublicReleaseEnvironment → AppReleaseEnvironment
to_release_environment PublicReleaseEnvironment.production = AppReleaseEnvironment.production
to_release_environment PublicReleaseEnvironment.staging = AppReleaseEnvironment.staging

abbrev pub to_release_brand : PublicReleaseBrand → AppReleaseBrand
to_release_brand PublicReleaseBrand.ai_smart_board = AppReleaseBrand.ai_smart_board
to_release_brand PublicReleaseBrand.softlogic = AppReleaseBrand.softlogic

abbrev pub to_release_platform : PublicReleasePlatform → AppReleasePlatform
to_release_platform PublicReleasePlatform.windows = AppReleasePlatform.windows
to_release_platform PublicReleasePlatform.android = AppReleasePlatform.android

abbrev pub from_release_environment : AppReleaseEnvironment → PublicReleaseEnvironment
from_release_environment AppReleaseEnvironment.production = PublicReleaseEnvironment.production
from_release_environment AppReleaseEnvironment.staging = PublicReleaseEnvironment.staging

abbrev pub from_release_brand : AppReleaseBrand → PublicReleaseBrand
from_release_brand AppReleaseBrand.ai_smart_board = PublicReleaseBrand.ai_smart_board
from_release_brand AppReleaseBrand.softlogic = PublicReleaseBrand.softlogic

abbrev pub from_release_platform : AppReleasePlatform → PublicReleasePlatform
from_release_platform AppReleasePlatform.windows = PublicReleasePlatform.windows
from_release_platform AppReleasePlatform.android = PublicReleasePlatform.android

abbrev pub to_channel : PublicChannel → Channel
to_channel c = record {
  environment = to_release_environment c.environment;
  brand = to_release_brand c.brand;
  platform = to_release_platform c.platform;
}

abbrev pub from_channel : Channel → PublicChannel
from_channel c = record {
  environment = from_release_environment c.environment;
  brand = from_release_brand c.brand;
  platform = from_release_platform c.platform;
}

same_environment : AppReleaseEnvironment → AppReleaseEnvironment → Bool
same_environment AppReleaseEnvironment.staging AppReleaseEnvironment.staging = true
same_environment AppReleaseEnvironment.production AppReleaseEnvironment.production = true
same_environment _ _ = false

same_brand : AppReleaseBrand → AppReleaseBrand → Bool
same_brand AppReleaseBrand.softlogic AppReleaseBrand.softlogic = true
same_brand AppReleaseBrand.ai_smart_board AppReleaseBrand.ai_smart_board = true
same_brand _ _ = false

same_platform : AppReleasePlatform → AppReleasePlatform → Bool
same_platform AppReleasePlatform.android AppReleasePlatform.android = true
same_platform AppReleasePlatform.windows AppReleasePlatform.windows = true
same_platform _ _ = false

-- the conditions on the three columns of a channel
unfoldable pub same_channel : Channel → Channel → Bool
unfolding same_environment same_brand same_platform
same_channel a b =
    same_environment a.environment b.environment
    && same_brand a.brand b.brand
    && same_platform a.platform b.platform

pub same_channel_iff : (a b : Channel) → (same_channel a b ≡ true) ↔ (a ≡ b)
unfolding same_channel
same_channel_iff a b = ground arith

-- The spellings of the API and of the database name the same channels: each mapping undoes the other.
pub channel_roundtrip :
    (p : PublicChannel) (c : Channel)
    → (from_channel (to_channel p) ≡ p) × (to_channel (from_channel c) ≡ c)
channel_roundtrip p c = (ground arith, ground arith)
