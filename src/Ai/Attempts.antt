-- ===== src/Ai/Attempts.antt =====
-- src/modules/ai/ai.service.ts: the limit on text-to-media attempts (`reserveFeatureAttempt`,
-- `commitFeatureAttempt`, `failFeatureAttempt`). Times are milliseconds; one request takes place at
-- one time, `now`.
pub mod Limit
pub mod Final
use backend_softlogic.Base.{
  ℕ, suc, ◌+◌, ◌-◌, String, Bool, true, false, not, ◌&&◌, Option, none, some, List, [], ◌∷◌, ◌++◌,
  ◌==◌, count, first, leb, trim, trim_or, if◌then◌else◌,
}
use backend_softlogic.Base.Exec.{
  Exec, Result, ok, err, pure, raise, lift, gets, or_raise, raise_if, modify, transaction, ◌>>=◌,
  ◌>>◌,
}
use backend_softlogic.Base.Failure.{
  Failure, ai_role_only, unsupported_feature, attempt_limit_reached, attempt_id_required,
  attempt_not_found,
}
use backend_softlogic.Base.Table.{Row, update}
use backend_softlogic.Access.Roles.{Actor}
use backend_softlogic.Ai.Json.{Json, Fields}
use backend_softlogic.Ai.Accounts.{is_ai_user_role}

pub data AiFeatureUsageAttemptStatus : Type 0 where
  reserved committed failed : AiFeatureUsageAttemptStatus

pub record AiFeatureUsageAttempt : Type 0 where
  pub id : String
  pub user_id : String
  pub feature_key : String
  pub status : AiFeatureUsageAttemptStatus
  pub metadata : Json
  pub created_at : ℕ

abbrev pub Attempts : Type 0
Attempts = List AiFeatureUsageAttempt

instance abbrev pub attempt_row : Row AiFeatureUsageAttempt
attempt_row = record { key = λ a. a.id }

pub record AiFeatureAttemptInput : Type 0 where
  pub feature_key : Option String
  pub attempt_id : Option String
  pub metadata : Option Fields

pub record FeatureAttemptSummary : Type 0 where
  pub attempt_id : String
  pub feature_key : String
  pub status : AiFeatureUsageAttemptStatus
  pub limit : ℕ
  pub used_in_window : ℕ
  pub remaining_in_window : ℕ
  pub window_hours : ℕ
  pub created_at : ℕ

abbrev pub text_to_media_feature : String
text_to_media_feature = "text_to_media"

abbrev pub text_to_media_limit : ℕ
text_to_media_limit = 3

abbrev pub text_to_media_window_ms : ℕ
text_to_media_window_ms = 86400000

-- `{ ...a, [key]: value }`, and the spread of two objects
set_field : String → Json → Fields → Fields
set_field key value Fields.end = Fields.entry key value Fields.end
set_field key value (Fields.entry k v rest) =
    if k == key then Fields.entry k value rest else Fields.entry k v (set_field key value rest)

spread : Fields → Fields → Fields
unfolding set_field
spread a Fields.end = a
spread a (Fields.entry key value rest) = spread (set_field key value a) rest

fields_of : Json → Fields
fields_of (Json.obj fs) = fs
fields_of _ = Fields.end

given_fields : Option Fields → Fields
given_fields none = Fields.end
given_fields (some fs) = fs

abbrev pub is_reserved : AiFeatureUsageAttemptStatus → Bool
is_reserved AiFeatureUsageAttemptStatus.reserved = true
is_reserved _ = false

-- `status: { in: [RESERVED, COMMITTED] }`
abbrev pub counts : AiFeatureUsageAttemptStatus → Bool
counts AiFeatureUsageAttemptStatus.failed = false
counts _ = true

abbrev pub since : ℕ → ℕ
since now = now - text_to_media_window_ms

-- the `where` clause of both counts
abbrev pub in_window : String → String → ℕ → AiFeatureUsageAttempt → Bool
in_window user_id feature_key start a =
    a.user_id == user_id
    && a.feature_key == feature_key
    && counts a.status
    && leb start a.created_at

assert_ai_user : Actor → Exec Attempts Unit
assert_ai_user actor = raise_if (not (is_ai_user_role actor.role)) ai_role_only

normalize_feature_key : Option String → Result String
normalize_feature_key feature_key =
    let normalized = trim_or feature_key text_to_media_feature in
    if normalized == text_to_media_feature then ok normalized else err unsupported_feature

unfoldable pub feature_attempts_used : String → String → ℕ → Attempts → ℕ
feature_attempts_used user_id feature_key now attempts =
    count (in_window user_id feature_key (since now)) attempts

-- `Math.max(0, limit - used)`
abbrev pub feature_attempt_summary : AiFeatureUsageAttempt → ℕ → FeatureAttemptSummary
feature_attempt_summary attempt used_in_window = record {
  attempt_id = attempt.id;
  feature_key = attempt.feature_key;
  status = attempt.status;
  limit = text_to_media_limit;
  used_in_window = used_in_window;
  remaining_in_window = text_to_media_limit - used_in_window;
  window_hours = 24;
  created_at = attempt.created_at;
}

new_attempt : Actor → AiFeatureAttemptInput → String → String → ℕ → AiFeatureUsageAttempt
unfolding given_fields
new_attempt actor input feature_key new_id now = record {
  id = new_id;
  user_id = actor.user_id;
  feature_key = feature_key;
  status = AiFeatureUsageAttemptStatus.reserved;
  metadata = Json.obj (given_fields input.metadata);
  created_at = now;
}

create_attempt : AiFeatureUsageAttempt → ℕ → Exec Attempts FeatureAttemptSummary
create_attempt attempt now = do
  used ← gets (count (in_window attempt.user_id attempt.feature_key (since now)))
  raise_if (leb text_to_media_limit used) attempt_limit_reached
  modify (λ attempts. attempts ++ attempt ∷ [])
  pure (feature_attempt_summary attempt (used + 1))

unfoldable pub reserve_feature_attempt :
    Actor → AiFeatureAttemptInput → String → ℕ → Exec Attempts FeatureAttemptSummary
unfolding assert_ai_user normalize_feature_key new_attempt create_attempt
reserve_feature_attempt actor input new_id now = do
  assert_ai_user actor
  feature_key ← lift (normalize_feature_key input.feature_key)
  transaction (create_attempt (new_attempt actor input feature_key new_id now) now)

-- `data: { status, metadata }`
unfoldable pub resolved :
    AiFeatureUsageAttemptStatus
    → AiFeatureAttemptInput
    → AiFeatureUsageAttempt
    → AiFeatureUsageAttempt
unfolding spread fields_of given_fields
resolved status input a = record a {
  status = status;
  metadata = Json.obj (spread (fields_of a.metadata) (given_fields input.metadata));
}

-- `{ id, userId, featureKey }`
is_own : String → String → String → AiFeatureUsageAttempt → Bool
is_own id user_id feature_key a = a.id == id && a.user_id == user_id && a.feature_key == feature_key

-- `attemptId?.trim()`, and the error where that is empty
given_id : Option String → Result String
given_id attempt_id =
    let id = trim_or attempt_id "" in if id == "" then err attempt_id_required else ok id

write_status :
    AiFeatureUsageAttemptStatus
    → AiFeatureAttemptInput
    → AiFeatureUsageAttempt
    → Exec Attempts AiFeatureUsageAttempt
unfolding resolved
write_status status input a =
    if not (is_reserved a.status)
    then pure a
    else modify (update a.id (resolved status input)) >> pure (resolved status input a)

update_own_feature_attempt :
    Actor
    → AiFeatureAttemptInput
    → AiFeatureUsageAttemptStatus
    → Exec Attempts AiFeatureUsageAttempt
unfolding normalize_feature_key is_own given_id write_status
update_own_feature_attempt actor input status = do
  id ← lift (given_id input.attempt_id)
  feature_key ← lift (normalize_feature_key input.feature_key)
  found ← gets (first (is_own id actor.user_id feature_key))
  attempt ← or_raise found attempt_not_found
  write_status status input attempt

unfoldable pub settle_attempt :
    AiFeatureUsageAttemptStatus
    → Actor
    → AiFeatureAttemptInput
    → ℕ
    → Exec Attempts FeatureAttemptSummary
unfolding assert_ai_user update_own_feature_attempt
settle_attempt status actor input now = do
  assert_ai_user actor
  attempt ← update_own_feature_attempt actor input status
  used ← gets (feature_attempts_used actor.user_id attempt.feature_key now)
  pure (feature_attempt_summary attempt used)

unfoldable pub commit_feature_attempt :
    Actor → AiFeatureAttemptInput → ℕ → Exec Attempts FeatureAttemptSummary
unfolding settle_attempt
commit_feature_attempt = settle_attempt AiFeatureUsageAttemptStatus.committed

unfoldable pub fail_feature_attempt :
    Actor → AiFeatureAttemptInput → ℕ → Exec Attempts FeatureAttemptSummary
unfolding settle_attempt
fail_feature_attempt = settle_attempt AiFeatureUsageAttemptStatus.failed
