-- ===== src/Ai/Pricing/Usage.antt =====
-- What is read from a request and from Gemini's answer.
use backend_softlogic.Base.{ℕ, ◌+◌, ◌≤◌, ◌<◌, ◌≡◌, Bool, false, arith, String}
use backend_softlogic.Ai.Json.{Number, Json, Items, field, nullish}
use backend_softlogic.Ai.Pricing.{
  non_negative_int, extract_gemini_usage_breakdown, requested_image_count,
  response_search_grounding_count, grounding_from, items_of, length_or,
}

module _ (coerce : Json → Number) (response : Json) where
  -- one count of the answer's usage metadata, under either spelling
  pub reported : String → String → ℕ
  reported camel snake =
      let usage = nullish (field "usageMetadata" response) (field "usage_metadata" response) in
      non_negative_int coerce (nullish (field camel usage) (field snake usage))

  -- The total is at least what Gemini reported as the total and at least the sum of the parts. Where
  -- Gemini reports no output tokens and a total that exceeds input and thinking, the parts add up to
  -- that total.
  pub extract_total :
      (images searches : ℕ)
      → let u = extract_gemini_usage_breakdown coerce response images searches in
        let total = reported "totalTokenCount" "total_token_count" in
        (total ≤ u.total_tokens)
        × (u.input_tokens + u.output_tokens + u.thinking_tokens ≤ u.total_tokens)
        × (reported "candidatesTokenCount" "candidates_token_count" ≡ 0
            → u.input_tokens + u.thinking_tokens < total
            → (u.input_tokens + u.output_tokens + u.thinking_tokens ≡ total)
              × (u.total_tokens ≡ total))
  unfolding extract_gemini_usage_breakdown reported
  extract_total images searches = (ground arith, ground arith, λ none_out more. ground arith)

-- An image request is priced for at least one image.
pub requested_image_count_pos :
    (coerce : Json → Number) (input : Json) → 0 < requested_image_count coerce input
unfolding requested_image_count
requested_image_count_pos coerce input = ground arith

-- the search queries of all candidates
pub total_queries : Items → ℕ
total_queries Items.nil = 0
total_queries (Items.cons candidate rest) =
    let grounding = field "groundingMetadata" candidate in
    length_or (nullish (field "webSearchQueries" grounding) (field "web_search_queries" grounding))
      0
    + total_queries rest

grounding_from-total :
    (items : Items) (q : ℕ) (h : Bool) → (grounding_from items q h).0 ≡ q + total_queries items
unfolding grounding_from total_queries
grounding_from-total Items.nil q h = omega arith
grounding_from-total (Items.cons c rest) q h = omega (arith, grounding_from-total rest _ _)

-- Where candidates list search queries the count is their number over all candidates, and otherwise
-- it is at most one.
pub response_search_grounding_count_total :
    (response : Json)
    → let total = total_queries (items_of (field "candidates" response)) in
      (0 < total → response_search_grounding_count response ≡ total)
      × (total ≡ 0 → response_search_grounding_count response ≤ 1)
unfolding response_search_grounding_count
response_search_grounding_count_total response =
    let t = grounding_from-total (items_of (field "candidates" response)) 0 false in
    (λ h. ground arith, λ h. ground arith)
