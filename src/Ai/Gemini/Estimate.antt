-- ===== src/Ai/Gemini/Estimate.antt =====
-- What is reserved for a request to Gemini, and what it costs in the end.
use backend_softlogic.Base.{
  ℕ, ◌+◌, ◌≤◌, ◌<◌, String, ◌≡◌, refl, Bool, true, false, Option, arith, if◌then◌else◌,
}
use backend_softlogic.Base.Exec.{Result, ok, err}
use backend_softlogic.Ai.Json.{Number, Json}
use backend_softlogic.Ai.Pricing.{
  AiPricingRecord, AiUsageBreakdown, AiUsageEstimate, calculate_ai_credits,
  billable_search_grounding_count,
}
use backend_softlogic.Ai.Pricing.Usage.{requested_image_count_pos}
use backend_softlogic.Ai.Gemini.{
  GeminiResponse, is_image, max_output_tokens_of, estimate_for, estimated,
  estimate_reservation_credits, actual_usage_credits,
}

-- what may be reserved for a request
pub record IsReservation (image : Bool) (search : Bool) (u : AiUsageBreakdown) : Type 0 where
  pub text :
      image ≡ false → (256 ≤ u.output_tokens) × (u.output_tokens ≤ 8192) × (u.image_count ≡ 0)
  pub picture : image ≡ true → (u.output_tokens ≡ 0) × (0 < u.image_count)
  pub thinking : u.thinking_tokens ≡ 0
  pub total : u.total_tokens ≡ u.input_tokens + u.output_tokens
  pub grounding : u.search_grounding_count ≡ (if search then 1 else 0)

max_output_tokens_of_bounds :
    (n : Number) → (256 ≤ max_output_tokens_of n) × (max_output_tokens_of n ≤ 8192)
unfolding max_output_tokens_of
max_output_tokens_of_bounds n = ground arith

module _ (coerce : Json → Number) (decrypt : Option String → Option String)
    (fetch : String → String → Json → Option GeminiResponse) where
  estimated-IsReservation :
      (pricing : AiPricingRecord) (max_out images : ℕ) (search : Bool) (answer : Result Json)
      → (256 ≤ max_out) × (max_out ≤ 8192)
      → (is_image pricing ≡ false → images ≡ 0)
      → (is_image pricing ≡ true → 0 < images)
      → IsReservation
          (is_image pricing)
          search
          (estimated coerce decrypt fetch pricing max_out images search answer).usage
  unfolding estimated estimate_for calculate_ai_credits billable_search_grounding_count
  estimated-IsReservation pricing max_out images search (ok count) (low, high) no_image some_image =
      record {
        text = λ t. (ground arith, ground arith, ground arith);
        picture = λ p. (ground arith, ground arith);
        thinking = refl;
        total = refl;
        grounding = refl;
      }
  estimated-IsReservation pricing max_out images search (err e) (low, high) no_image some_image =
      record {
        text = λ t. (ground arith, ground arith, ground arith);
        picture = λ p. (ground arith, ground arith);
        thinking = refl;
        total = refl;
        grounding = refl;
      }

  -- Whatever the request asks for and whether or not Gemini counts its tokens, a request for text
  -- reserves between 256 and 8192 output tokens and no image, a request for images reserves at least
  -- one image and no output tokens, and a search costs one grounding exactly if it is switched on.
  pub estimate_reservation_credits-IsReservation :
      (model_id api_key : String) (body : Json) (pricing : AiPricingRecord) (search : Bool)
      → IsReservation
          (is_image pricing)
          search
          (estimate_reservation_credits coerce decrypt fetch model_id api_key body pricing
            search).usage
  unfolding estimate_reservation_credits
  estimate_reservation_credits-IsReservation model_id api_key body pricing search =
      estimated-IsReservation pricing _ _ search _ (max_output_tokens_of_bounds _)
        (λ t. ground arith)
        (λ p. let pos_count = requested_image_count_pos coerce body in ground arith)

  -- A request for which something was reserved is never free: its cost is positive, whatever Gemini's
  -- answer says or leaves out.
  pub actual_usage_credits_pos :
      (response : Json) (pricing : AiPricingRecord) (reservation : AiUsageEstimate) (search : Bool)
      → 0 < reservation.credits
      → 0 < (actual_usage_credits coerce decrypt fetch response pricing reservation search).credits
  unfolding actual_usage_credits
  actual_usage_credits_pos response pricing reservation search h = ground arith
