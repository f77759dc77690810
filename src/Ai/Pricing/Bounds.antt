-- ===== src/Ai/Pricing/Bounds.antt =====
-- What a call costs.
use native.Mathlib.Nat.{div-add-mod', mod-lt, mul-le-mul, le_refl}
use backend_softlogic.Base.{ℕ, zero, suc, ◌+◌, ◌-◌, ◌*◌, ◌≤◌, ◌<◌, arith}
use backend_softlogic.Ai.Json.{Number, finite_non_negative_int, finite_non_negative_int-of_ℕ}
use backend_softlogic.Ai.Pricing.{
  AiPricingRecord, AiUsageBreakdown, ceil_div, component_credits, token_denominator,
  tool_denominator, calculate_ai_credits,
}

-- Rounding up: the least number whose product with the denominator reaches the numerator.
pub ceil_div_bounds : (n d : ℕ) → 0 < d → (n ≤ ceil_div n d * d) × (ceil_div n d * d < n + d)
unfolding ceil_div
ceil_div_bounds zero d h = (omega arith, ground arith)
ceil_div_bounds (suc n) d h =
    let whole = div-add-mod' (suc n + d - 1) d in
    let rest = mod-lt (suc n + d - 1) h in (ground arith, ground arith)

pub ceil_div_mono : (m n d : ℕ) → 0 < d → m ≤ n → ceil_div m d ≤ ceil_div n d
ceil_div_mono m n d h k = grind (arith, ceil_div_bounds m d h, ceil_div_bounds n d h)

-- Each component of a price is its exact cost, units times rate over the denominator, rounded up: it
-- is never below the exact cost, and exceeds it by less than one credit.
pub component_credits_exact :
    (units : ℕ) (rate : Number) (d : ℕ)
    → 0 < d
    → (units * finite_non_negative_int rate ≤ component_credits units rate d * d)
      × (component_credits units rate d * d < units * finite_non_negative_int rate + d)
unfolding component_credits
component_credits_exact units rate d h =
    rw finite_non_negative_int-of_ℕ (ceil_div_bounds (units * finite_non_negative_int rate) d h)

component_credits_mono :
    (u v : ℕ) (rate : Number) (d : ℕ)
    → 0 < d
    → u ≤ v
    → component_credits u rate d ≤ component_credits v rate d
unfolding component_credits
component_credits_mono u v rate d h k = simp finite_non_negative_int-of_ℕ (
    ceil_div_mono (u * finite_non_negative_int rate) (v * finite_non_negative_int rate) d h
      (mul-le-mul k (le_refl _)))

-- The counts that are billed are no larger.
pub record IsWithin (a b : AiUsageBreakdown) : Type 0 where
  pub input : a.input_tokens ≤ b.input_tokens
  pub output : a.output_tokens + a.thinking_tokens ≤ b.output_tokens + b.thinking_tokens
  pub images : a.image_count ≤ b.image_count
  pub searches : a.search_grounding_count ≤ b.search_grounding_count

-- Usage whose input tokens, output and thinking tokens together, images and searches are each at most
-- those of another usage costs at most as much, at the same prices.
pub calculate_ai_credits_mono :
    (pricing : AiPricingRecord) (a b : AiUsageBreakdown)
    → IsWithin a b
    → (calculate_ai_credits pricing a).credits ≤ (calculate_ai_credits pricing b).credits
unfolding calculate_ai_credits
calculate_ai_credits_mono p a b h =
    let i =
      component_credits_mono _ _ p.input_usd_micros_per_million token_denominator (omega arith)
        h.input in
    let o =
      component_credits_mono _ _ p.output_usd_micros_per_million token_denominator (omega arith)
        h.output in
    let s =
      component_credits_mono _ _ p.search_usd_micros_per_thousand tool_denominator (omega arith)
        h.searches in
    let g = mul-le-mul h.images (le_refl (finite_non_negative_int p.image_usd_micros_each)) in
    simp finite_non_negative_int-of_ℕ (omega (arith, i, o, s, g))
