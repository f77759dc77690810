-- ===== src/Ai/Tests/Prices.antt =====
-- Runs of the prices, and of what is read from Gemini's answers.
use backend_softlogic.Base.{◌+◌, ◌*◌, ◌≤◌, ◌<◌, arith}
use backend_softlogic.Ai.Json.{Number, of_ℕ, Json, Items, Fields, finite_non_negative_int}
use backend_softlogic.Ai.Pricing.{component_credits}
use backend_softlogic.Ai.Pricing.Bounds.{component_credits_exact}
use backend_softlogic.Ai.Store.{account_row}
use backend_softlogic.Ai.Attempts.{attempt_row}

abbrev coerce : Json → Number
coerce v = Number.nan

component_credits_exact_example :
    (7 * finite_non_negative_int (of_ℕ 300000)
      ≤ component_credits 7 (of_ℕ 300000) 1000000 * 1000000)
    × (component_credits 7 (of_ℕ 300000) 1000000 * 1000000
        < 7 * finite_non_negative_int (of_ℕ 300000) + 1000000)
component_credits_exact_example = component_credits_exact 7 (of_ℕ 300000) 1000000 (omega arith)

abbrev answer : Json
answer = Json.obj (
    Fields.entry "usageMetadata"
      (Json.obj (
        Fields.entry "promptTokenCount" (Json.num (of_ℕ 4))
          (Fields.entry "totalTokenCount" (Json.num (of_ℕ 9)) Fields.end)))
      Fields.end)

abbrev grounded : Json
grounded = Json.obj (
    Fields.entry "candidates"
      (Json.arr (
        Items.cons
          (Json.obj (
            Fields.entry "groundingMetadata"
              (Json.obj (
                Fields.entry "webSearchQueries" (Json.arr (Items.cons (Json.str "q") Items.nil))
                  Fields.end))
              Fields.end))
          Items.nil))
      Fields.end)
