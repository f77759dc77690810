-- ===== src/Ai/Gemini.antt =====
-- src/modules/ai/ai.service.ts: `proxyGeminiGenerate` and what it calls. Gemini itself is a parameter, a
-- function from the path, the key and the body of a request to a response; so are the decryption
-- of the stored key, and what `Number` makes of a text, an array or an object.
pub mod Estimate
pub mod Outcome
pub mod Proxy
use backend_softlogic.Base.{
  ℕ, zero, suc, ◌+◌, ◌-◌, ◌*◌, ◌/◌, ◌^◌, String, Bool, true, false, not, ◌&&◌, ◌||◌, Option, none,
  some, List, [], ◌∷◌, ◌++◌, ◌==◌, first, includes, any, leb, ltb, eqb, or_else, trim, is_some,
  concat_text, if◌then◌else◌,
}
use Prim.Native.Nat.{max, min}
use backend_softlogic.Base.Int.{ℤ, pos, negsuc, clamp_ℤ}
use backend_softlogic.Base.Exec.{
  Exec, Result, ok, err, pure, raise, lift, gets, or_raise, raise_if, modify, try_catch, ◌>>=◌,
  ◌>>◌,
}
use backend_softlogic.Base.Failure.{
  Failure, ai_not_enabled, api_key_missing, model_not_allowed, pricing_disabled, pricing_missing,
  gemini_failed, type_error, ai_role_only,
}
use backend_softlogic.Access.Roles.{Actor}
use backend_softlogic.Ai.Json.{
  Number, Json, Items, Fields, field, nullish, to_number, finite_non_negative_int,
}
use backend_softlogic.Ai.Pricing.{
  AiPricingRecord, AiUsageBreakdown, AiUsageEstimate, default_ai_model_pricing,
  calculate_ai_credits, billable_search_grounding_count, or_number, extract_gemini_usage_breakdown,
  requested_image_count, response_image_count,
}
use backend_softlogic.Ai.Store.{AiCreditAccount, AiCreditScope, AiStore}
use backend_softlogic.Ai.Accounts.{
  WarningLevel, account_available, warning_level_for, is_ai_user_role, resolve_usage_account,
}
use backend_softlogic.Ai.Credits.{Committed, reserve_tokens, commit_usage, refund_reservation}

-- The columns of the configuration that the proxy reads.
pub record AiMasterConfig : Type 0 where
  pub gemini_api_key_encrypted : Option String
  pub gemini_text_model : String
  pub gemini_image_model : String
  pub gemini_tts_model : String
  pub google_search_grounding_enabled : Bool
  pub enabled : Bool

pub record AiSystem : Type 0 where
  pub config : Option AiMasterConfig
  pub pricing : List AiPricingRecord
  pub store : AiStore

pub record GeminiResponse : Type 0 where
  pub is_ok : Bool
  pub status : ℕ
  pub payload : Json

pub data Operation : Type 0 where
  generate_content predict : Operation

pub record GeminiProxyInput : Type 0 where
  pub model_id : String
  pub data_fields : Fields
  pub enable_google_search : Bool
  pub operation : Option Operation

-- a service method on the accounts, in the whole state
abbrev pub in_store : {A : Type 0} → Exec AiStore A → Exec AiSystem A
in_store m w = let (r, s) = m w.store in (r, record w { store = s })

-- the defaults of the schema
default_config : AiMasterConfig
default_config = record {
  gemini_api_key_encrypted = none;
  gemini_text_model = "gemini-3.5-flash";
  gemini_image_model = "imagen-4.0-generate-001";
  gemini_tts_model = "gemini-2.5-flash-preview-tts";
  google_search_grounding_enabled = false;
  enabled = false;
}

ensure_config : Exec AiSystem AiMasterConfig
unfolding default_config
ensure_config w =
    let config = or_else w.config default_config in (ok config, record w { config = some config })

unfoldable pub normalize_allowed_model : String → AiMasterConfig → Result String
normalize_allowed_model model_id config =
    let requested = trim model_id in
    let allowed =
      config.gemini_text_model ∷ config.gemini_image_model ∷ config.gemini_tts_model
      ∷ "gemini-2.5-flash" ∷ "gemini-2.5-flash-image" ∷ "imagen-4.0-generate-001"
      ∷ "gemini-2.5-flash-preview-tts" ∷ [] in
    if requested == ""
    then ok config.gemini_text_model
    else if includes requested allowed
    then ok requested
    else err model_not_allowed

abbrev pub is_model : String → AiPricingRecord → Bool
is_model model_id row = row.model_id == model_id

-- `upsert` with an empty `update`, for each default row
add_missing : List AiPricingRecord → List AiPricingRecord → List AiPricingRecord
add_missing [] table = table
add_missing (row ∷ rest) table =
    let created = record row {
      provider = some (or_else row.provider "gemini");
      enabled = some (or_else row.enabled true);
    } in
    add_missing rest (if any (is_model row.model_id) table then table else table ++ created ∷ [])

ensure_default_pricing : Exec AiSystem Unit
unfolding add_missing
ensure_default_pricing =
    modify (λ w. record w { pricing = add_missing default_ai_model_pricing w.pricing })

-- the row that is used for a model
priced : String → Option AiPricingRecord → Result AiPricingRecord
priced model_id none = elim (first (is_model model_id) default_ai_model_pricing) [
  | none ↦ err pricing_missing
  | some fallback ↦ ok fallback
]
priced model_id (some row) = if or_else row.enabled false then ok row else err pricing_disabled

pricing_for_model : String → Exec AiSystem AiPricingRecord
unfolding ensure_default_pricing priced
pricing_for_model model_id = do
  ensure_default_pricing
  found ← gets (λ w. first (is_model model_id) w.pricing)
  lift (priced model_id found)

-- `if (!apiKey)`: an empty key is none
usable_key : Option String → Option String
usable_key none = none
usable_key (some key) = if key == "" then none else some key

-- `{ ...data, tools: [{ google_search: {} }] }`; a later entry of the same name is the one that is read
-- first, so the new entry goes to the front.
with_google_search : Fields → Fields
with_google_search fields =
    Fields.entry "tools"
      (Json.arr (
        Items.cons (Json.obj (Fields.entry "google_search" (Json.obj Fields.end) Fields.end))
          Items.nil))
      fields

abbrev pub is_image : AiPricingRecord → Bool
is_image pricing = pricing.billing_type == "image"

-- `Math.max(256, Math.min(Math.trunc(raw), 8192))`, and 4096 where `raw` is not finite
unfoldable pub max_output_tokens_of : Number → ℕ
max_output_tokens_of (Number.finite (pos n) s) = max 256 (min (n / 2 ^ s) 8192)
max_output_tokens_of (Number.finite (negsuc n) s) = 256
max_output_tokens_of _ = 4096

not_null : Json → Result Json
not_null Json.null = err type_error
not_null v = ok v

path_of : Operation → String
path_of Operation.generate_content = "generateContent"
path_of Operation.predict = "predict"

is_generate : Operation → Bool
is_generate Operation.generate_content = true
is_generate Operation.predict = false

pub record CreditStatus : Type 0 where
  pub account_id : String
  pub scope : AiCreditScope
  pub organization_id : Option String
  pub user_id : Option String
  pub available_tokens : ℤ
  pub allocated_tokens : ℤ
  pub used_tokens : ℤ
  pub reserved_tokens : ℤ
  pub warning_level : WarningLevel

-- all but `percentRemaining`, a double
credit_status : AiCreditAccount → CreditStatus
credit_status account = record {
  account_id = account.id;
  scope = account.scope;
  organization_id = account.organization_id;
  user_id = account.user_id;
  available_tokens = clamp_ℤ (account_available account);
  allocated_tokens = account.allocated_tokens;
  used_tokens = account.used_tokens;
  reserved_tokens = account.reserved_tokens;
  warning_level = warning_level_for (account_available account) account.allocated_tokens;
}

pub record ProxyAnswer : Type 0 where
  pub gemini : Json
  pub reserved_credits : ℤ
  pub used_credits : ℤ
  pub actual_credits : ℤ
  pub unbilled_overage_credits : ℤ
  pub usage : AiUsageBreakdown
  pub status : CreditStatus

module _ (coerce : Json → Number) (decrypt : Option String → Option String)
    (fetch : String → String → Json → Option GeminiResponse) where
  -- `none` stands for a `fetch` that throws
  unfoldable pub post_gemini : String → String → Json → Result Json
  post_gemini path api_key body = elim (fetch path api_key body) [
    | none ↦ err type_error
    | some response ↦
        if response.is_ok
        then ok response.payload
        else err (gemini_failed (if leb 500 response.status then 502 else response.status))
  ]

  -- what is estimated without a count of tokens, and with one
  estimate_for : AiPricingRecord → ℕ → ℕ → ℕ → Bool → AiUsageEstimate
  estimate_for pricing input_tokens output_tokens image_count search =
      calculate_ai_credits pricing (record {
        input_tokens = input_tokens;
        output_tokens = output_tokens;
        thinking_tokens = 0;
        total_tokens = input_tokens + output_tokens;
        image_count = image_count;
        search_grounding_count = billable_search_grounding_count search;
      })

  -- The `catch` branch's total for an image is 0, as is the sum.
  estimated : AiPricingRecord → ℕ → ℕ → Bool → Result Json → AiUsageEstimate
  unfolding estimate_for
  estimated pricing max_output_tokens image_count search (ok count) =
      estimate_for pricing (finite_non_negative_int (to_number coerce (field "totalTokens" count)))
        (if is_image pricing then 0 else max_output_tokens) image_count search
  estimated pricing max_output_tokens image_count search (err e) =
      estimate_for pricing (if is_image pricing then 0 else 2048)
        (if is_image pricing then 0 else max_output_tokens) image_count search

  -- `countTokens`; reading a field of a `null` answer throws, inside the `try`
  counted : Result Json → Result Json
  unfolding not_null
  counted (ok v) = not_null v
  counted (err e) = err e

  unfoldable pub estimate_reservation_credits :
      String → String → Json → AiPricingRecord → Bool → AiUsageEstimate
  unfolding estimated counted
  estimate_reservation_credits model_id api_key body pricing search =
      let generation_config = nullish (field "generationConfig" body) (Json.obj Fields.end) in
      let raw = to_number coerce (
        nullish (field "maxOutputTokens" generation_config)
          (Json.num (Number.finite (pos 4096) 0))) in
      let image_count = if is_image pricing then requested_image_count coerce body else 0 in
      let asked = Fields.entry "contents" (field "contents" body) (
        Fields.entry "systemInstruction" (field "systemInstruction" body)
          (Fields.entry "tools" (field "tools" body) Fields.end)) in
      estimated pricing (max_output_tokens_of raw) image_count search
        (counted (post_gemini (concat_text model_id ":countTokens") api_key (Json.obj asked)))

  has_usage : AiUsageBreakdown → Bool
  has_usage u =
      ltb 0 u.total_tokens
      || ltb 0 u.input_tokens
      || ltb 0 u.output_tokens
      || ltb 0 u.thinking_tokens
      || ltb 0 u.image_count
      || ltb 0 u.search_grounding_count

  unfoldable pub actual_usage_credits :
      Json → AiPricingRecord → AiUsageEstimate → Bool → AiUsageEstimate
  unfolding has_usage
  actual_usage_credits response pricing reservation search =
      let image_count =
        if is_image pricing
        then or_number (response_image_count response) reservation.usage.image_count
        else 0 in
      let usage =
        extract_gemini_usage_breakdown coerce response image_count
          (billable_search_grounding_count search) in
      let estimate = calculate_ai_credits pricing usage in
      if has_usage usage && ltb 0 estimate.credits then estimate else reservation

  answer_of : Json → AiUsageEstimate → AiUsageEstimate → Committed → ProxyAnswer
  unfolding credit_status
  answer_of gemini reservation actual committed = record {
    gemini = gemini;
    reserved_credits = pos reservation.credits;
    used_credits = committed.charged_credits;
    actual_credits = pos actual.credits;
    unbilled_overage_credits = committed.unbilled_overage_credits;
    usage = actual.usage;
    status = credit_status committed.account;
  }

  -- the body of the `try`
  generate :
      Actor
      → String
      → String
      → String
      → Json
      → AiPricingRecord
      → AiUsageEstimate
      → Bool
      → String
      → Exec AiStore ProxyAnswer
  unfolding not_null answer_of
  generate actor account_id api_key path body pricing reservation search model_id = do
    gemini ← lift (post_gemini path api_key body)
    response ← lift (not_null gemini)
    let actual = actual_usage_credits response pricing reservation search
    committed ← commit_usage account_id (pos reservation.credits) actual actor model_id
    pure (answer_of response reservation actual committed)

  give_back : Actor → String → AiUsageEstimate → Failure → Exec AiStore ProxyAnswer
  give_back actor account_id reservation error = do
    refunded ← refund_reservation account_id (pos reservation.credits) actor
    raise error

  unfoldable pub generate_reserved :
      Actor
      → String
      → String
      → String
      → Json
      → AiPricingRecord
      → AiUsageEstimate
      → Bool
      → String
      → Exec AiStore ProxyAnswer
  unfolding generate give_back
  generate_reserved actor account_id api_key path body pricing reservation search model_id = do
    reserve_tokens account_id (pos reservation.credits) actor reservation model_id
    try_catch (generate actor account_id api_key path body pricing reservation search model_id)
        (give_back actor account_id reservation)

  -- the request, once its price is known
  priced_request :
      Actor
      → GeminiProxyInput
      → AiMasterConfig
      → String
      → AiCreditAccount
      → String
      → AiPricingRecord
      → Exec AiSystem ProxyAnswer
  unfolding with_google_search is_generate path_of
  priced_request actor input config api_key account model_id pricing =
      let operation = or_else input.operation Operation.generate_content in
      let search =
        input.enable_google_search
        && config.google_search_grounding_enabled
        && is_generate operation in
      let body =
        Json.obj (if search then with_google_search input.data_fields else input.data_fields) in
      let reservation = estimate_reservation_credits model_id api_key body pricing search in
      in_store (
        generate_reserved actor account.id api_key
          (concat_text model_id (concat_text ":" (path_of operation))) body pricing reservation
          search model_id)

  -- the request, once the account that pays is known
  request_for :
      Actor
      → GeminiProxyInput
      → AiMasterConfig
      → String
      → AiCreditAccount
      → Exec AiSystem ProxyAnswer
  unfolding pricing_for_model priced_request
  request_for actor input config api_key account = do
    model_id ← lift (normalize_allowed_model input.model_id config)
    pricing ← pricing_for_model model_id
    priced_request actor input config api_key account model_id pricing

  unfoldable pub proxy_gemini_generate :
      Actor → GeminiProxyInput → String → Exec AiSystem ProxyAnswer
  unfolding ensure_config usable_key request_for
  proxy_gemini_generate actor input new_id = do
    raise_if (not (is_ai_user_role actor.role)) ai_role_only
    config ← ensure_config
    raise_if (not config.enabled) ai_not_enabled
    api_key ← or_raise (usable_key (decrypt config.gemini_api_key_encrypted)) api_key_missing
    account ← in_store (resolve_usage_account actor new_id)
    request_for actor input config api_key account
