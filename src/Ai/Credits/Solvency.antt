-- ===== src/Ai/Credits/Solvency.antt =====
-- Solvency, and what reservations, refunds and commits do to it.
use backend_softlogic.Base.{
  String, ◌≡◌, ◌⊎◌, inl, inr, true, All, arith, Bool-cases, Option-cases, if◌then◌else◌,
}
use backend_softlogic.Base.Int.{ℤ, pos, ◌+ℤ◌, ◌-ℤ◌, ◌≤ℤ◌, ltb_ℤ, clamp_ℤ, int_laws}
use backend_softlogic.Base.Table.{find, All-find, All-update_found}
use backend_softlogic.Access.Roles.{Actor}
use backend_softlogic.Ai.Pricing.{AiUsageEstimate}
use backend_softlogic.Ai.Store.{AiCreditAccount, AiStore, account_row}
use backend_softlogic.Ai.Accounts.{account_available}
use backend_softlogic.Ai.Credits.{
  add_reserved, release_reserved, commit_charge, chargeable_credits, reserve_tokens,
  refund_reservation, commit_usage,
}
use backend_softlogic.Ai.Credits.Balance.{
  available-add_reserved, available-release_reserved, available-commit_charge,
}

abbrev pub IsSolvent : AiCreditAccount → Type 0
IsSolvent a = (a.unlimited ≡ true) ⊎ (pos 0 ≤ℤ account_available a)

abbrev pub AllSolvent : AiStore → Type 0
AllSolvent s = All IsSolvent s.accounts

pub IsSolvent-add_reserved :
    (x : ℤ) (a : AiCreditAccount)
    → (a.unlimited ≡ true) ⊎ (x ≤ℤ account_available a)
    → IsSolvent (add_reserved x a)
IsSolvent-add_reserved x a (inl free) = inl (unfold add_reserved in free)
IsSolvent-add_reserved x a (inr cover) = inr (rw available-add_reserved (omega int_laws))

-- After a reservation, granted or refused, every account is solvent if every one was before.
pub reserve_tokens-AllSolvent :
    (id : String) (x : ℤ) (actor : Actor) (estimate : AiUsageEstimate) (model : String)
    (s : AiStore)
    → AllSolvent s
    → AllSolvent (reserve_tokens id x actor estimate model s).1
unfolding reserve_tokens
reserve_tokens-AllSolvent id x actor estimate model s h = elim (Option-cases (find id s.accounts)) [
  | inl e ↦ ground arith
  | inr (a, e) ↦
      let next = λ (p : (a.unlimited ≡ true) ⊎ (x ≤ℤ account_available a)).
        All-update_found IsSolvent id (add_reserved x) a s.accounts h e
          (IsSolvent-add_reserved x a p) in
      ground (arith, next)
]

IsSolvent-release_reserved :
    (x : ℤ) (a : AiCreditAccount) → pos 0 ≤ℤ x → IsSolvent a → IsSolvent (release_reserved x a)
IsSolvent-release_reserved x a h (inl free) = inl (unfold release_reserved in free)
IsSolvent-release_reserved x a h (inr cover) = inr (rw available-release_reserved (omega int_laws))

-- After the refund of an amount that is not negative, every account is solvent if every one was before.
pub refund_reservation-AllSolvent :
    (id : String) (x : ℤ) (actor : Actor) (s : AiStore)
    → pos 0 ≤ℤ x
    → AllSolvent s
    → AllSolvent (refund_reservation id x actor s).1
unfolding refund_reservation
refund_reservation-AllSolvent id x actor s nonneg h = elim (Option-cases (find id s.accounts)) [
  | inl e ↦ ground arith
  | inr (a, e) ↦
      let next =
        All-update_found IsSolvent id (release_reserved x) a s.accounts h e
          (IsSolvent-release_reserved x a nonneg (All-find IsSolvent id a s.accounts h e)) in
      ground (arith, next)
]

funds_cover :
    (funds credits : ℤ)
    → pos 0 ≤ℤ funds
    → pos 0 ≤ℤ funds -ℤ (if ltb_ℤ funds credits then clamp_ℤ funds else credits)
unfolding ◌-ℤ◌
funds_cover funds credits h = ground arith

IsSolvent-commit_charge :
    (x credits : ℤ) (a : AiCreditAccount)
    → pos 0 ≤ℤ x
    → pos 0 ≤ℤ credits
    → IsSolvent a
    → IsSolvent (commit_charge x (chargeable_credits a x credits) a)
IsSolvent-commit_charge x credits a h k (inl free) = inl (unfold commit_charge in free)
IsSolvent-commit_charge x credits a h k (inr cover) = elim (Bool-cases a.unlimited) [
  | inl free ↦ inl (unfold commit_charge in free)
  | inr limited ↦ inr (
      rw available-commit_charge (
        unfold chargeable_credits in
        simp limited (funds_cover (account_available a +ℤ x) credits (omega int_laws))))
]

-- After a commit, whatever the usage, of a reservation that is not negative, every account is solvent if
-- every one was before.
pub commit_usage-AllSolvent :
    (id : String) (x : ℤ) (usage : AiUsageEstimate) (actor : Actor) (model : String) (s : AiStore)
    → pos 0 ≤ℤ x
    → AllSolvent s
    → AllSolvent (commit_usage id x usage actor model s).1
unfolding commit_usage
commit_usage-AllSolvent id x usage actor model s nonneg h =
    elim (Option-cases (find id s.accounts)) [
      | inl e ↦ ground arith
      | inr (a, e) ↦
          let charged = chargeable_credits a x (pos usage.credits) in
          let next = All-update_found IsSolvent id (commit_charge x charged) a s.accounts h e (
            IsSolvent-commit_charge x (pos usage.credits) a nonneg (omega arith)
              (All-find IsSolvent id a s.accounts h e)) in
          ground (arith, next)
    ]
