-- ===== src/Ai/Credits/Requests.antt =====
-- Requests that move credits, in any order.
use backend_softlogic.Base.{ℕ, String, Option, List, [], ◌∷◌, arith}
use backend_softlogic.Base.Int.{ℤ, pos}
use backend_softlogic.Access.Roles.{Actor}
use backend_softlogic.Access.Directory.{Directory}
use backend_softlogic.Ai.Pricing.{AiUsageEstimate}
use backend_softlogic.Ai.Store.{AiStore}
use backend_softlogic.Ai.Accounts.{Target}
use backend_softlogic.Ai.Credits.{
  top_up, allocate, reserve_tokens, commit_usage, refund_reservation,
}
use backend_softlogic.Ai.Credits.Solvency.{
  AllSolvent, reserve_tokens-AllSolvent, commit_usage-AllSolvent, refund_reservation-AllSolvent,
}
use backend_softlogic.Ai.Credits.Funding.{top_up-AllSolvent}
use backend_softlogic.Ai.Credits.Allocation.{allocate-AllSolvent}

-- The amount of a commit and of a refund is one that was reserved before, and not negative.
pub data CreditRequest : Type 0 where
  fund : Option String → ℤ → CreditRequest
  move : Directory → Option String → Target → ℤ → String → String → CreditRequest
  reserve : String → ℤ → AiUsageEstimate → String → CreditRequest
  commit : String → ℕ → AiUsageEstimate → String → CreditRequest
  refund : String → ℕ → CreditRequest

-- the tables after a request, granted or refused
pub after : AiStore → Actor × CreditRequest → AiStore
after s (actor, CreditRequest.fund account_id amount) = (top_up actor account_id amount s).1
after s (actor, CreditRequest.move dir source target amount new_source new_target) =
    (allocate dir actor source target amount new_source new_target s).1
after s (actor, CreditRequest.reserve id amount estimate model) =
    (reserve_tokens id amount actor estimate model s).1
after s (actor, CreditRequest.commit id reserved usage model) =
    (commit_usage id (pos reserved) usage actor model s).1
after s (actor, CreditRequest.refund id amount) = (refund_reservation id (pos amount) actor s).1

abbrev pub after_all : AiStore → List (Actor × CreditRequest) → AiStore
after_all s [] = s
after_all s (r ∷ rs) = after_all (after s r) rs

after-AllSolvent : (s : AiStore) (r : Actor × CreditRequest) → AllSolvent s → AllSolvent (after s r)
unfolding after
after-AllSolvent s (actor, CreditRequest.fund account_id amount) h =
    top_up-AllSolvent actor account_id amount s h
after-AllSolvent s (actor, CreditRequest.move dir source target amount a b) h =
    allocate-AllSolvent dir actor source target amount a b s h
after-AllSolvent s (actor, CreditRequest.reserve id amount estimate model) h =
    reserve_tokens-AllSolvent id amount actor estimate model s h
after-AllSolvent s (actor, CreditRequest.commit id reserved usage model) h =
    commit_usage-AllSolvent id (pos reserved) usage actor model s (omega arith) h
after-AllSolvent s (actor, CreditRequest.refund id amount) h =
    refund_reservation-AllSolvent id (pos amount) actor s (omega arith) h

-- Top-ups, allocations, reservations, commits and refunds, granted or refused and in any order, leave
-- every account solvent (unlimited, or with no negative balance available), if every one was before.
pub credit_requests-AllSolvent :
    (rs : List (Actor × CreditRequest)) (s : AiStore) → AllSolvent s → AllSolvent (after_all s rs)
credit_requests-AllSolvent [] s h = h
credit_requests-AllSolvent (r ∷ rs) s h =
    credit_requests-AllSolvent rs (after s r) (after-AllSolvent s r h)
