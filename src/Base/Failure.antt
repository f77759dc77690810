-- ===== src/Base/Failure.antt =====
-- src/shared/errors/AppError.ts: the errors that the services throw, one constructor for each
-- `new AppError(message, status)`, with the amounts of its details where it has some; and what the
-- database client throws.
use Prim.Native.Nat.{ℕ}
use backend_softlogic.Base.Int.{ℤ}

-- The details of `AI_CREDITS_INSUFFICIENT` and `AI_CREDITS_ALLOCATION_INSUFFICIENT`.
pub record Shortage : Type 0 where
  pub available : ℤ
  pub required : ℤ
  pub minimum_top_up : ℤ
  pub deficit : ℤ

pub data Failure : Type 0 where
  organization_not_found no_access_to_organization : Failure
  canvas_not_found only_creator_can_edit : Failure
  account_not_found account_not_accessible same_account allocation_exceeds_source : Failure
  allocation_below_spent : ℤ → ℤ → Failure
  allocation_insufficient credits_insufficient : Shortage → Failure
  credits_unavailable : Failure
  organization_id_required user_id_required user_not_found role_without_credits : Failure
  scope_not_supported admin_organization_required organization_context_required : Failure
  super_admin_only ai_role_only : Failure
  unsupported_feature attempt_limit_reached attempt_id_required attempt_not_found : Failure
  ai_not_enabled api_key_missing model_not_allowed pricing_disabled pricing_missing : Failure
  gemini_failed : ℕ → Failure
  -- a `TypeError` of the runtime, such as a failed `fetch`
  type_error : Failure
  release_super_admin_only release_not_found current_must_be_active : Failure
  session_not_found no_session_access session_host_only session_create_role : Failure
  invalid_join_code code_for_other_email : Failure
  session_only_needs_organization session_only_inactive session_only_disabled : Failure
  subscription_not_found organization_assignment_required organization_inactive teacher_only_logins
        student_logins_disabled parent_logins_disabled :
      Failure
  licensed_user_needs_organization active_organization_required teacher_users_only
        student_users_disabled parent_users_disabled subscription_required :
      Failure
  subscription_not_active role_limit_reached seat_limit_reached commercial_super_admin_only :
      Failure
  manual_provider_only invalid_activation_key activation_organization_inactive
        activation_subscription_inactive activation_key_expired key_of_other_organization :
      Failure
  activation_key_not_found key_without_subscription organization_inactive_for_keys
        keys_need_subscription subscription_of_other_organization primary_admin_email_missing :
      Failure
  ai_credits_coming_soon mail_failed : Failure
  -- the seats in use; the device limit of a key; the usable keys and the limit of seats
  seats_below_usage device_limit_reached : ℕ → Failure
  key_seat_limit_reached : ℕ → ℕ → Failure
  -- the errors of src/shared/errors/AuthError.ts, and what `jsonwebtoken` throws
  invalid_credentials token_expired token_invalid jwt_error unauthorized account_suspended : Failure
  otp_expired otp_invalid otp_max_attempts rate_limited : Failure
  login_session_not_found current_login_session current_password_incorrect : Failure
  password_setup_invalid password_setup_inactive password_setup_role : Failure
  google_token_required google_attempt_not_found google_not_configured : Failure
  -- an error of the exchange with Google, with its status
  google_failed : ℕ → Failure
  -- an `update` of a row that is not there, and a unique index that a write would break
  record_not_found unique_violation foreign_key_violation : Failure

-- `statusCode`, which the error handler answers with.
pub status_code : Failure → ℕ
status_code organization_not_found = 404
status_code no_access_to_organization = 403
status_code canvas_not_found = 404
status_code only_creator_can_edit = 403
status_code account_not_found = 404
status_code account_not_accessible = 403
status_code same_account = 400
status_code allocation_exceeds_source = 409
status_code (allocation_below_spent _ _) = 409
status_code (allocation_insufficient _) = 409
status_code (credits_insufficient _) = 402
status_code credits_unavailable = 402
status_code organization_id_required = 400
status_code user_id_required = 400
status_code user_not_found = 404
status_code role_without_credits = 400
status_code scope_not_supported = 400
status_code admin_organization_required = 400
status_code organization_context_required = 400
status_code super_admin_only = 403
status_code ai_role_only = 403
status_code unsupported_feature = 400
status_code attempt_limit_reached = 429
status_code attempt_id_required = 400
status_code attempt_not_found = 404
status_code ai_not_enabled = 503
status_code api_key_missing = 503
status_code model_not_allowed = 400
status_code pricing_disabled = 400
status_code pricing_missing = 400
status_code (gemini_failed s) = s
status_code type_error = 500
status_code release_super_admin_only = 403
status_code release_not_found = 404
status_code current_must_be_active = 400
status_code session_not_found = 404
status_code no_session_access = 403
status_code session_host_only = 403
status_code session_create_role = 403
status_code invalid_join_code = 404
status_code code_for_other_email = 403
status_code session_only_needs_organization = 403
status_code session_only_inactive = 403
status_code session_only_disabled = 403
status_code subscription_not_found = 404
status_code organization_assignment_required = 403
status_code organization_inactive = 403
status_code teacher_only_logins = 403
status_code student_logins_disabled = 403
status_code parent_logins_disabled = 403
status_code licensed_user_needs_organization = 400
status_code active_organization_required = 400
status_code teacher_users_only = 403
status_code student_users_disabled = 403
status_code parent_users_disabled = 403
status_code subscription_required = 403
status_code subscription_not_active = 403
status_code role_limit_reached = 409
status_code seat_limit_reached = 409
status_code commercial_super_admin_only = 403
status_code manual_provider_only = 400
status_code invalid_activation_key = 404
status_code activation_organization_inactive = 403
status_code activation_subscription_inactive = 403
status_code activation_key_expired = 410
status_code key_of_other_organization = 403
status_code activation_key_not_found = 404
status_code key_without_subscription = 409
status_code organization_inactive_for_keys = 403
status_code keys_need_subscription = 409
status_code subscription_of_other_organization = 409
status_code primary_admin_email_missing = 400
status_code ai_credits_coming_soon = 503
status_code mail_failed = 500
status_code (seats_below_usage _) = 409
status_code (device_limit_reached _) = 409
status_code (key_seat_limit_reached _ _) = 409
status_code invalid_credentials = 401
status_code token_expired = 401
status_code token_invalid = 401
status_code jwt_error = 500
status_code unauthorized = 403
status_code account_suspended = 403
status_code otp_expired = 400
status_code otp_invalid = 400
status_code otp_max_attempts = 429
status_code rate_limited = 429
status_code login_session_not_found = 404
status_code current_login_session = 400
status_code current_password_incorrect = 400
status_code password_setup_invalid = 400
status_code password_setup_inactive = 400
status_code password_setup_role = 403
status_code google_token_required = 400
status_code google_attempt_not_found = 404
status_code google_not_configured = 503
status_code (google_failed s) = s
status_code record_not_found = 500
status_code unique_violation = 500
status_code foreign_key_violation = 500
