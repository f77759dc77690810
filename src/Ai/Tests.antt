-- ===== src/Ai/Tests.antt =====
-- Runs of the AI module: an organization's account below the master account, and requests against it.
mod Requests
mod Prices
use backend_softlogic.Base.{
  ◌≡◌, ◌≢◌, ◌↔◌, ◌⊎◌, refl, inl, inr, ℕ, ◌+◌, ◌*◌, ◌≤◌, ◌<◌, String, List, [], ◌∷◌, Option, none,
  some, Bool, true, false, arith, count, if◌then◌else◌,
}
use backend_softlogic.Base.Int.{ℤ, pos, negsuc, ◌+ℤ◌, ◌-ℤ◌, ◌≤ℤ◌}
use backend_softlogic.Base.Exec.{Result, ok, err}
use backend_softlogic.Base.Failure.{Failure, Shortage, credits_insufficient}
use backend_softlogic.Base.Table.{find}
use backend_softlogic.Base.Table.Columns.{IsKeyed}
use backend_softlogic.Access.Roles.{UserRole, Actor, is_super_admin}
use backend_softlogic.Access.Directory.{Directory, User}
use backend_softlogic.Ai.Json.{Number, of_ℕ, Json, Items, Fields, field, finite_non_negative_int}
use backend_softlogic.Ai.Pricing.{
  AiPricingRecord, AiUsageBreakdown, AiUsageEstimate, component_credits, calculate_ai_credits,
  items_of, extract_gemini_usage_breakdown, requested_image_count, response_search_grounding_count,
}
use backend_softlogic.Ai.Pricing.Bounds.{
  IsWithin, component_credits_exact, calculate_ai_credits_mono,
}
use backend_softlogic.Ai.Pricing.Usage.{
  extract_total, reported, requested_image_count_pos, total_queries,
  response_search_grounding_count_total,
}
use backend_softlogic.Ai.Store.{
  AiCreditScope, AiCreditAccountStatus, AiCreditAccount, AiStore, account_row,
}
use backend_softlogic.Ai.Accounts.{
  WarningLevel, new_account, account_available, warning_level_for, Target, resolve_target_account,
}
use backend_softlogic.Ai.Accounts.Levels.{severity, warning_level_for_mono}
use backend_softlogic.Ai.Accounts.Placement.{IsPlaced, resolve_target_account-IsPlaced}
use backend_softlogic.Ai.Credits.Requests.{CreditRequest, after_all, credit_requests-AllSolvent}
use backend_softlogic.Ai.Credits.{
  Committed, reserve_tokens, refund_reservation, commit_usage, top_up, allocate, set_allocation,
  shortage,
}
use backend_softlogic.Ai.Credits.Solvency.{
  AllSolvent, reserve_tokens-AllSolvent, refund_reservation-AllSolvent, commit_usage-AllSolvent,
}
use backend_softlogic.Ai.Credits.Reservation.{reserve-refund}
use backend_softlogic.Ai.Credits.Charge.{IsCharge, commit_usage-IsCharge, reserve-commit}
use backend_softlogic.Ai.Credits.Funding.{top_up-AllSolvent}
use backend_softlogic.Ai.Credits.Allocation.{circulating, allocate-AllSolvent, allocate-circulating}
use backend_softlogic.Ai.Credits.Refusal.{credits_insufficient_exact}
use backend_softlogic.Ai.Credits.Reassign.{set_allocation_user-others}
use backend_softlogic.Ai.Attempts.{
  AiFeatureAttemptInput, Attempts, attempt_row, reserve_feature_attempt, commit_feature_attempt,
  fail_feature_attempt,
}
use backend_softlogic.Ai.Attempts.Limit.{Reachable, in_span, attempts-limited}
use backend_softlogic.Ai.Attempts.Final.{commit-fail_others}
use backend_softlogic.Ai.Gemini.{
  AiMasterConfig, AiSystem, GeminiResponse, GeminiProxyInput, ProxyAnswer, Operation, is_image,
  estimate_reservation_credits, actual_usage_credits, proxy_gemini_generate,
}
use backend_softlogic.Ai.Gemini.Estimate.{
  IsReservation, estimate_reservation_credits-IsReservation, actual_usage_credits_pos,
}

abbrev account : String → ℕ → ℕ → AiCreditAccount
account id allocated used =
    record (new_account id AiCreditScope.organization (some "master") (some "school") none) {
      allocated_tokens = pos allocated;
      used_tokens = pos used;
    }

abbrev store : AiStore
store = record {
  accounts =
      record (new_account "master" AiCreditScope.master none none none) {
        allocated_tokens = pos 1000;
        child_allocated_tokens = pos 100;
      }
      ∷ account "org" 100 20
      ∷ [];
  ledger = [];
}

store-AllSolvent : AllSolvent store
unfolding account_available ◌-ℤ◌
store-AllSolvent = (inr (omega arith), (inr (omega arith), tt))

abbrev admin : Actor
admin = record { user_id = "root"; role = UserRole.super_admin; organization_id = none }

abbrev teacher : Actor
teacher = record { user_id = "t"; role = UserRole.teacher; organization_id = some "school" }

abbrev directory : Directory
directory = record {
  organizations = [];
  users =
      record {
        id = "t";
        role = UserRole.teacher;
        primary_organization_id = none;
        deleted_at = none;
      }
      ∷ [];
  memberships = [];
  parent_links = [];
}

abbrev prices : AiPricingRecord
prices = record {
  model_id = "m";
  provider = some "gemini";
  billing_type = "token";
  input_usd_micros_per_million = of_ℕ 300000;
  output_usd_micros_per_million = of_ℕ 2500000;
  image_usd_micros_each = of_ℕ 0;
  search_usd_micros_per_thousand = of_ℕ 35000000;
  enabled = some true;
}

abbrev usage : ℕ → ℕ → AiUsageBreakdown
usage input output = record {
  input_tokens = input;
  output_tokens = output;
  thinking_tokens = 0;
  total_tokens = input + output;
  image_count = 0;
  search_grounding_count = 0;
}

abbrev estimate : ℕ → AiUsageEstimate
estimate credits = record { usage = usage 10 10; credits = credits; pricing_snapshot = prices }

abbrev credit_requests : List (Actor × CreditRequest)
credit_requests =
    (teacher, CreditRequest.reserve "org" (pos 50) (estimate 50) "m")
    ∷ (teacher, CreditRequest.commit "org" 50 (estimate 200) "m")
    ∷ (admin, CreditRequest.fund (some "org") (pos 5))
    ∷ []

credit_requests-AllSolvent_example : AllSolvent (after_all store credit_requests)
credit_requests-AllSolvent_example =
    credit_requests-AllSolvent credit_requests store store-AllSolvent

abbrev school : Target
school = record {
  scope = AiCreditScope.organization;
  organization_id = some "school";
  user_id = none;
}

allocate-circulating_example :
    circulating (allocate directory admin none school (pos 30) "x" "y" store).1 ≡ circulating store
allocate-circulating_example =
    allocate-circulating directory admin none school (pos 30) "x" "y" store

reserve-refund_example :
    let after =
      refund_reservation "org"
        (pos 50)
        teacher
        (reserve_tokens "org" (pos 50) teacher (estimate 50) "m" store).1 in
    (a : AiCreditAccount) × (find "org" store.accounts ≡ some a)
    × (after.0 ≡ ok a)
    × (after.1.accounts ≡ store.accounts)
unfolding reserve_tokens find account_available ◌-ℤ◌
reserve-refund_example = reserve-refund "org" (pos 50) teacher (estimate 50) "m" store refl

reserve-commit_example :
    let after =
      commit_usage "org"
        (pos 50)
        (estimate 40)
        teacher
        "m"
        (reserve_tokens "org" (pos 50) teacher (estimate 50) "m" store).1 in
    (a : AiCreditAccount) × (c : Committed) × (find "org" store.accounts ≡ some a)
    × (after.0 ≡ ok c)
    × (c.charged_credits ≡ pos 40)
    × (c.unbilled_overage_credits ≡ pos 0)
    × (find "org" after.1.accounts ≡ some (record a { used_tokens = a.used_tokens +ℤ pos 40 }))
unfolding reserve_tokens find account_available ◌-ℤ◌
reserve-commit_example =
    reserve-commit "org" (pos 50) teacher (estimate 50) (estimate 40) "m" store refl (omega arith)
