-- ===== src/Ai/Tests/Requests.antt =====
-- Runs of reassignments, refused reservations, attempts and requests to Gemini.
use backend_softlogic.Base.{
  ◌≡◌, ◌↔◌, ◌⊎◌, refl, ◌≤◌, String, [], ◌∷◌, Option, none, some, true, false, arith, count,
}
use backend_softlogic.Base.Int.{pos, ◌+ℤ◌, ◌-ℤ◌, ◌≤ℤ◌}
use backend_softlogic.Base.Exec.{ok}
use backend_softlogic.Base.Table.{find, update}
use backend_softlogic.Base.Text.{trim_or}
use backend_softlogic.Access.Roles.{is_super_admin}
use backend_softlogic.Ai.Json.{Number, of_ℕ, Json, Fields}
use backend_softlogic.Ai.Store.{AiCreditScope, AiCreditAccount, AiStore, account_row}
use backend_softlogic.Ai.Accounts.{
  new_account, account_available, account_deficit, account_spent, is_ai_user_role,
  ensure_user_account, get_managed_account, resolve_source_account_for_target, Target,
  resolve_target_account,
}
use backend_softlogic.Ai.Accounts.Placement.{IsPlaced, resolve_target_account-IsPlaced}
use backend_softlogic.Ai.Credits.Reconcile.{Corrected}
use backend_softlogic.Ai.Credits.Reconcile.Visit.{IsSettled}
use backend_softlogic.Ai.Credits.Reconcile.Settled.{is_chosen, reconcile_overdrawn-IsSettled}
use backend_softlogic.Ai.Credits.{
  reconcile_overdrawn_usage_accounts, reserve_tokens, top_up, set_allocation, set_allocated,
  shortage,
}
use backend_softlogic.Ai.Credits.Refusal.{credits_insufficient_exact}
use backend_softlogic.Ai.Credits.Reassign.{set_allocation_user-others}
use backend_softlogic.Ai.Attempts.{
  AiFeatureUsageAttemptStatus, AiFeatureUsageAttempt, AiFeatureAttemptInput, Attempts, attempt_row,
  reserve_feature_attempt,
}
use backend_softlogic.Ai.Attempts.Limit.{Reachable, in_span, attempts-limited}
use backend_softlogic.Ai.Gemini.{
  AiSystem, GeminiResponse, GeminiProxyInput, is_image, estimate_reservation_credits,
  proxy_gemini_generate,
}
use backend_softlogic.Ai.Gemini.Estimate.{IsReservation, estimate_reservation_credits-IsReservation}
use backend_softlogic.Ai.Gemini.Proxy.{ProxyOutcome, proxy_gemini_generate-settles}
use backend_softlogic.Ai.Tests.{account, store, admin, teacher, directory, prices, estimate}

abbrev user_target : Target
user_target = record { scope = AiCreditScope.user; organization_id = none; user_id = some "t" }

abbrev user_account : AiCreditAccount
user_account = record (new_account "ut" AiCreditScope.user (some "master") none (some "t")) {
  allocated_tokens = pos 10;
}

abbrev with_user : AiStore
with_user = record { accounts = user_account ∷ store.accounts; ledger = [] }

resolve_target_account-IsPlaced_example :
    IsPlaced "org" with_user
      (record user_account { parent_account_id = some "org" })
      (resolve_target_account directory admin user_target "org" "new" with_user).1
unfolding resolve_target_account find is_ai_user_role ensure_user_account
resolve_target_account-IsPlaced_example =
    resolve_target_account-IsPlaced directory admin user_target "org" "new" with_user
      (resolve_target_account directory admin user_target "org" "new" with_user).1
      (record user_account { parent_account_id = some "org" }) refl (refl, (refl, (refl, tt))) refl
      refl

set_allocation_user-others_example :
    find "master"
      (set_allocation directory admin
        (some "org")
        user_target
        (pos 30)
        "x"
        "new"
        with_user).1.accounts
    ≡ find "master" with_user.accounts
unfolding set_allocation find resolve_source_account_for_target get_managed_account is_super_admin
    resolve_target_account is_ai_user_role ensure_user_account update account_spent ◌+ℤ◌ ◌-ℤ◌
    account_available set_allocated
set_allocation_user-others_example =
    set_allocation_user-others directory admin "org" user_target (pos 30) "x" "new" with_user
      (set_allocation directory admin (some "org") user_target (pos 30) "x" "new" with_user).1
      (record user_account { parent_account_id = some "org"; allocated_tokens = pos 30 }) refl
      (refl, (refl, (refl, tt))) refl refl "master" (λ e. cc) (λ e. cc)

credits_insufficient_exact_example :
    let sh = shortage (pos 80) (pos 200) (pos 0) in
    ((reserve_tokens "org"
        (pos 200)
        teacher
        (estimate 200)
        "m"
        (top_up admin (some "org") (pos 120) store).1).0
      ≡ ok tt)
    ↔ (sh.minimum_top_up +ℤ sh.deficit ≤ℤ pos 120)
unfolding reserve_tokens find account_available ◌-ℤ◌ account_deficit is_super_admin trim_or
credits_insufficient_exact_example =
    credits_insufficient_exact "org" 200 teacher admin (estimate 200) "m" store
      (shortage (pos 80) (pos 200) (pos 0)) (pos 120) refl refl refl (omega arith)

abbrev no_input : AiFeatureAttemptInput
no_input = record { feature_key = none; attempt_id = some "a1"; metadata = none }

abbrev attempts : Attempts
attempts = (reserve_feature_attempt teacher no_input "a1" 5 []).1

attempts-limited_example : count (in_span "t" "text_to_media" 0) attempts ≤ 3
unfolding find
attempts-limited_example =
    attempts-limited 5 attempts "t" "text_to_media" 0 (
      Reachable.reserve teacher no_input "a1" refl (Reachable.wait 5 (omega arith) Reachable.empty))

abbrev failed_attempt : AiFeatureUsageAttempt
failed_attempt = record {
  id = "a0";
  user_id = "t";
  feature_key = "text_to_media";
  status = AiFeatureUsageAttemptStatus.failed;
  metadata = Json.null;
  created_at = 0;
}

abbrev coerce : Json → Number
coerce v = Number.nan

abbrev decrypt : Option String → Option String
decrypt o = o

-- Gemini answers every call with 10 tokens.
abbrev gemini : String → String → Json → Option GeminiResponse
gemini path key body = some (record {
  is_ok = true;
  status = 200;
  payload = Json.obj (Fields.entry "totalTokens" (Json.num (of_ℕ 10)) Fields.end);
})

abbrev system : AiSystem
system = record {
  config = some (record {
    gemini_api_key_encrypted = some "key";
    gemini_text_model = "gemini-3.5-flash";
    gemini_image_model = "imagen-4.0-generate-001";
    gemini_tts_model = "gemini-2.5-flash-preview-tts";
    google_search_grounding_enabled = true;
    enabled = true;
  });
  pricing = [];
  store = store;
}

abbrev request : GeminiProxyInput
request = record {
  model_id = "gemini-2.5-flash";
  data_fields = Fields.end;
  enable_google_search = true;
  operation = none;
}

proxy_gemini_generate-settles_example :
    ProxyOutcome teacher "new" system
      (proxy_gemini_generate coerce decrypt gemini teacher request "new" system)
proxy_gemini_generate-settles_example =
    proxy_gemini_generate-settles coerce decrypt gemini teacher request "new" system

estimate_reservation_credits-IsReservation_example :
    IsReservation
      (is_image prices)
      true
      (estimate_reservation_credits coerce decrypt gemini "m" "key" Json.null prices true).usage
estimate_reservation_credits-IsReservation_example =
    estimate_reservation_credits-IsReservation coerce decrypt gemini "m" "key" Json.null prices true

abbrev overdrawn_store : AiStore
overdrawn_store = record { accounts = account "org" 10 25 ∷ []; ledger = [] }

reconcile_overdrawn-IsSettled_example :
    (b : AiCreditAccount) × (find "org"
        (reconcile_overdrawn_usage_accounts overdrawn_store).1.accounts
      ≡ some b)
    × Corrected (account "org" 10 25) b
    × (((is_chosen "org" overdrawn_store ≡ true) × IsSettled b)
        ⊎ ((is_chosen "org" overdrawn_store ≡ false) × (b ≡ account "org" 10 25)))
unfolding find
reconcile_overdrawn-IsSettled_example =
    reconcile_overdrawn-IsSettled overdrawn_store "org" (account "org" 10 25) (refl, tt) refl
