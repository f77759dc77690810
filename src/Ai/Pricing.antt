-- ===== src/Ai/Pricing.antt =====
-- src/modules/ai/ai.pricing.ts: the credits that a call costs, and the counts that are read from what
-- Gemini answers. Token and image counts are natural numbers: they come out of `nonNegativeInt`, and
-- stay below 2 ^ 53, where sums of doubles are exact.
pub mod Bounds
pub mod Usage
use backend_softlogic.Base.{
  ℕ, zero, suc, ◌+◌, ◌-◌, ◌*◌, ◌/◌, String, Bool, true, false, ◌&&◌, ◌||◌, Option, none, some, List,
  [], ◌∷◌, ltb, eqb, if◌then◌else◌,
}
use Prim.Native.Nat.{max}
use backend_softlogic.Ai.Json.{
  Number, of_ℕ, finite_non_negative_int, Json, Items, Fields, field, nullish, to_number,
  length_items,
}

pub record AiPricingRecord : Type 0 where
  pub model_id : String
  pub provider : Option String
  pub billing_type : String
  pub input_usd_micros_per_million : Number
  pub output_usd_micros_per_million : Number
  pub image_usd_micros_each : Number
  pub search_usd_micros_per_thousand : Number
  pub enabled : Option Bool

pub record AiUsageBreakdown : Type 0 where
  pub input_tokens : ℕ
  pub output_tokens : ℕ
  pub thinking_tokens : ℕ
  pub total_tokens : ℕ
  pub image_count : ℕ
  pub search_grounding_count : ℕ

-- The snapshot is the record of prices itself; its JSON form is not modelled.
pub record AiUsageEstimate : Type 0 where
  pub usage : AiUsageBreakdown
  pub credits : ℕ
  pub pricing_snapshot : AiPricingRecord

abbrev pub token_denominator : ℕ
token_denominator = 1000000

abbrev pub tool_denominator : ℕ
tool_denominator = 1000

abbrev row : String → String → ℕ → ℕ → ℕ → ℕ → AiPricingRecord
row model billing input output image search = record {
  model_id = model;
  provider = some "gemini";
  billing_type = billing;
  input_usd_micros_per_million = of_ℕ input;
  output_usd_micros_per_million = of_ℕ output;
  image_usd_micros_each = of_ℕ image;
  search_usd_micros_per_thousand = of_ℕ search;
  enabled = some true;
}

abbrev pub default_ai_model_pricing : List AiPricingRecord
default_ai_model_pricing =
    row "gemini-3.5-flash" "token" 1500000 9000000 0 14000000
    ∷ row "gemini-2.5-flash" "token" 300000 2500000 0 35000000
    ∷ row "gemini-2.5-flash-preview-tts" "audio" 500000 10000000 0 0
    ∷ row "imagen-4.0-generate-001" "image" 0 0 40000 0
    ∷ []

-- No caller passes a numerator or a denominator below zero.
unfoldable pub ceil_div : ℕ → ℕ → ℕ
ceil_div numerator denominator =
    if eqb numerator 0 then 0 else (numerator + denominator - 1) / denominator

unfoldable pub component_credits : ℕ → Number → ℕ → ℕ
component_credits units micros_rate denominator =
    ceil_div (finite_non_negative_int (of_ℕ units) * finite_non_negative_int micros_rate)
      denominator

unfoldable pub credits_of : AiPricingRecord → AiUsageBreakdown → ℕ
credits_of pricing usage =
    component_credits usage.input_tokens pricing.input_usd_micros_per_million token_denominator
    + component_credits (usage.output_tokens + usage.thinking_tokens)
        pricing.output_usd_micros_per_million token_denominator
    + finite_non_negative_int (of_ℕ usage.image_count)
      * finite_non_negative_int pricing.image_usd_micros_each
    + component_credits usage.search_grounding_count pricing.search_usd_micros_per_thousand
        tool_denominator

unfoldable pub calculate_ai_credits : AiPricingRecord → AiUsageBreakdown → AiUsageEstimate
unfolding credits_of
calculate_ai_credits pricing usage = record {
  usage = usage;
  credits = credits_of pricing usage;
  pricing_snapshot = pricing;
}

unfoldable pub billable_search_grounding_count : Bool → ℕ
billable_search_grounding_count enabled = if enabled then 1 else 0

-- `a || b` on numbers
abbrev pub or_number : ℕ → ℕ → ℕ
or_number a b = if eqb a 0 then b else a

-- the length of an array, or `none` for any other value
abbrev pub array_length : Json → Option ℕ
array_length (Json.arr items) = some (length_items items)
array_length _ = none

abbrev pub length_or : Json → ℕ → ℕ
length_or v d = elim (array_length v) [ none ↦ d | some n ↦ n ]

module _ (coerce : Json → Number) where
  unfoldable pub non_negative_int : Json → ℕ
  non_negative_int value = finite_non_negative_int (to_number coerce value)

  unfoldable pub extract_gemini_usage_breakdown : Json → ℕ → ℕ → AiUsageBreakdown
  unfolding non_negative_int
  extract_gemini_usage_breakdown response image_count search_grounding_count =
      let usage = nullish (field "usageMetadata" response) (field "usage_metadata" response) in
      let count = λ (camel : String) (snake : String).
        non_negative_int (nullish (field camel usage) (field snake usage)) in
      let input_tokens = count "promptTokenCount" "prompt_token_count" in
      let thinking_tokens = count "thoughtsTokenCount" "thoughts_token_count" in
      let explicit_output_tokens = count "candidatesTokenCount" "candidates_token_count" in
      let total_tokens = count "totalTokenCount" "total_token_count" in
      let output_tokens = or_number explicit_output_tokens (
        if ltb (input_tokens + thinking_tokens) total_tokens
        then total_tokens - input_tokens - thinking_tokens
        else 0) in
      record {
        input_tokens = input_tokens;
        output_tokens = output_tokens;
        thinking_tokens = thinking_tokens;
        total_tokens = max total_tokens (input_tokens + output_tokens + thinking_tokens);
        image_count = image_count;
        search_grounding_count = search_grounding_count;
      }

  unfoldable pub requested_image_count : Json → ℕ
  unfolding non_negative_int
  requested_image_count input =
      let parameters = nullish (field "parameters" input) (Json.obj Fields.end) in
      or_number (non_negative_int (field "sampleCount" parameters)) (
        or_number (non_negative_int (field "numberOfImages" parameters)) (
          or_number (non_negative_int (field "n" parameters)) (
            or_number (non_negative_int (field "sampleCount" input))
              (or_number (non_negative_int (field "numberOfImages" input)) 1))))

unfoldable pub response_image_count : Json → ℕ
response_image_count response = length_or (field "predictions" response) (
    length_or (nullish (field "generatedImages" response) (field "generated_images" response))
      (length_or (field "images" response) 0))

-- the loop over the candidates, with its two variables
grounding_from : Items → ℕ → Bool → ℕ × Bool
grounding_from Items.nil web_search_queries has_grounding = (web_search_queries, has_grounding)
grounding_from (Items.cons candidate rest) web_search_queries has_grounding =
    let grounding = field "groundingMetadata" candidate in
    let queries =
      nullish (field "webSearchQueries" grounding) (field "web_search_queries" grounding) in
    let chunks = nullish (field "groundingChunks" grounding) (field "grounding_chunks" grounding) in
    let supports =
      nullish (field "groundingSupports" grounding) (field "grounding_supports" grounding) in
    grounding_from rest (web_search_queries + length_or queries 0)
      (has_grounding || ltb 0 (length_or chunks 0) || ltb 0 (length_or supports 0))

abbrev pub items_of : Json → Items
items_of (Json.arr items) = items
items_of _ = Items.nil

unfoldable pub response_search_grounding_count : Json → ℕ
unfolding grounding_from
response_search_grounding_count response =
    let (web_search_queries, has_grounding) =
      grounding_from (items_of (field "candidates" response)) 0 false in
    or_number web_search_queries (if has_grounding then 1 else 0)
