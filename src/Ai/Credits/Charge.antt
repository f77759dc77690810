-- ===== src/Ai/Credits/Charge.antt =====
-- What `commitUsage` charges.
use backend_softlogic.Base.{
  String, ◌≡◌, refl, ◌∙◌, ap, ◌⊎◌, inl, inr, Bool, true, false, some, arith, if◌then◌else◌,
}
use backend_softlogic.Base.Int.{
  ℤ, pos, ◌+ℤ◌, ◌-ℤ◌, ◌≤ℤ◌, ltb_ℤ, clamp_ℤ, int_laws, add_sub_cancel, sub_self,
}
use backend_softlogic.Base.Exec.{ok}
use backend_softlogic.Base.Table.{find, update, find-update_self}
use backend_softlogic.Access.Roles.{Actor}
use backend_softlogic.Ai.Pricing.{AiUsageEstimate}
use backend_softlogic.Ai.Store.{AiCreditAccount, AiStore, account_row}
use backend_softlogic.Ai.Accounts.{account_available}
use backend_softlogic.Ai.Credits.{
  add_reserved, commit_charge, chargeable_credits, Committed, commit_usage, reserve_tokens,
}
use backend_softlogic.Ai.Credits.Balance.{available-add_reserved}
use backend_softlogic.Ai.Credits.Reservation.{
  CanReserve, id-add_reserved, unlimited-add_reserved, reserve_tokens-found,
}

-- What is charged for usage on an account with the given funds.
pub record IsCharge (unlimited : Bool) (funds credits charged : ℤ) : Type 0 where
  pub nonneg : pos 0 ≤ℤ charged
  pub within_usage : charged ≤ℤ credits
  pub within_funds : (unlimited ≡ true) ⊎ (charged ≤ℤ clamp_ℤ funds)
  pub in_full : (charged ≡ credits) ⊎ ((unlimited ≡ false) × (charged ≡ clamp_ℤ funds))
  pub covered : credits ≤ℤ funds → charged ≡ credits

abbrev charge : Bool → ℤ → ℤ → ℤ
charge unlimited funds credits =
    if unlimited then credits else if ltb_ℤ funds credits then clamp_ℤ funds else credits

charge-IsCharge :
    (u : Bool) (funds credits : ℤ)
    → pos 0 ≤ℤ credits
    → IsCharge u funds credits (charge u funds credits)
charge-IsCharge u funds credits h = ground arith

unbilled_exact :
    (credits charged : ℤ)
    → charged ≤ℤ credits
    → (if ltb_ℤ charged credits then credits -ℤ charged else pos 0) ≡ credits -ℤ charged
unfolding ◌-ℤ◌
unbilled_exact credits charged h = ground arith

module _ (id : String) (reserved : ℤ) (usage : AiUsageEstimate) (actor : Actor)
    (model : String) where
  abbrev pub committed : AiCreditAccount → Committed
  committed a =
      let charged = chargeable_credits a reserved (pos usage.credits) in
      record {
        account = commit_charge reserved charged a;
        charged_credits = charged;
        unbilled_overage_credits =
            if ltb_ℤ charged (pos usage.credits) then pos usage.credits -ℤ charged else pos 0;
      }

  pub commit_usage-found :
      (s : AiStore) (a : AiCreditAccount)
      → find id s.accounts ≡ some a
      → ((commit_usage id reserved usage actor model s).0 ≡ ok (committed a))
        × ((commit_usage id reserved usage actor model s).1.accounts
            ≡ update id
                (commit_charge reserved (chargeable_credits a reserved (pos usage.credits)))
                s.accounts)
  unfolding commit_usage
  commit_usage-found s a e = (ground arith, ground arith)

  -- On an account that is there a commit succeeds. It takes the reservation off the account and adds
  -- the charge to what is used, and nothing else of the balance changes. The charge is not negative,
  -- is at most the usage, and on a limited account is at most what was available and reserved, or
  -- zero where that is negative; it is the whole usage where that covers it, and on an unlimited
  -- account always. What is not charged is reported as unbilled.
  pub commit_usage-IsCharge :
      (s : AiStore) (a : AiCreditAccount)
      → find id s.accounts ≡ some a
      → (c : Committed) × ((commit_usage id reserved usage actor model s).0 ≡ ok c)
        × (find id (commit_usage id reserved usage actor model s).1.accounts ≡ some c.account)
        × IsCharge a.unlimited
            (account_available a +ℤ reserved)
            (pos usage.credits)
            c.charged_credits
        × (c.unbilled_overage_credits ≡ pos usage.credits -ℤ c.charged_credits)
        × (c.account ≡ record a {
          used_tokens = a.used_tokens +ℤ c.charged_credits;
          reserved_tokens = a.reserved_tokens -ℤ reserved;
        })
  unfolding chargeable_credits commit_charge
  commit_usage-IsCharge s a e =
      let (result, written) = commit_usage-found s a e in
      let bounds =
        charge-IsCharge a.unlimited (account_available a +ℤ reserved) (pos usage.credits)
          (omega arith) in
      (
        committed a,
        result,
        rw written (
            find-update_self id
              (commit_charge reserved (chargeable_credits a reserved (pos usage.credits))) a
              s.accounts (λ x. refl) e),
        bounds,
        unbilled_exact (pos usage.credits) _ bounds.within_usage,
        refl,
      )

full_charge :
    (u : Bool) (funds k charged : ℤ)
    → (u ≡ true) ⊎ (k ≤ℤ funds)
    → IsCharge u funds k charged
    → charged ≡ k
full_charge u funds k charged (inl free) bounds = elim bounds.in_full [
  | inl all ↦ all
  | inr (limited, _) ↦ absurd (cc)
]
full_charge u funds k charged (inr cover) bounds = bounds.covered cover

funds_after_reserve :
    (a : AiCreditAccount) (n k : ℤ)
    → CanReserve a n
    → k ≤ℤ n
    → ((add_reserved n a).unlimited ≡ true) ⊎ (k ≤ℤ account_available (add_reserved n a) +ℤ n)
funds_after_reserve a n k can le = elim can.funded [
  | inl free ↦ inl (unlimited-add_reserved n a ∙ free)
  | inr cover ↦ inr (rw (available-add_reserved n a) (omega int_laws))
]

pub restored :
    (a : AiCreditAccount) (n charged : ℤ)
    → record (add_reserved n a) {
      used_tokens = (add_reserved n a).used_tokens +ℤ charged;
      reserved_tokens = (add_reserved n a).reserved_tokens -ℤ n;
    }
      ≡ record a { used_tokens = a.used_tokens +ℤ charged }
unfolding add_reserved
restored a n charged =
    ap (λ z. record a { used_tokens = a.used_tokens +ℤ charged; reserved_tokens = z })
      (add_sub_cancel a.reserved_tokens n)

-- Usage that costs no more than was reserved for it is charged in full: after a successful
-- reservation a commit of such usage succeeds, bills nothing less, and leaves the account as it was
-- before the reservation but for the charge, which is added to what is used.
pub reserve-commit :
    (id : String) (n : ℤ) (actor : Actor) (estimate usage : AiUsageEstimate) (model : String)
    (s : AiStore)
    → (reserve_tokens id n actor estimate model s).0 ≡ ok tt
    → pos usage.credits ≤ℤ n
    → let after =
        commit_usage id n usage actor model (reserve_tokens id n actor estimate model s).1 in
      (a : AiCreditAccount) × (c : Committed) × (find id s.accounts ≡ some a)
      × (after.0 ≡ ok c)
      × (c.charged_credits ≡ pos usage.credits)
      × (c.unbilled_overage_credits ≡ pos 0)
      × (find id after.1.accounts
          ≡ some (record a { used_tokens = a.used_tokens +ℤ pos usage.credits }))
reserve-commit id n actor estimate usage model s h le =
    let (a, found, can, accounts) = reserve_tokens-found id n actor estimate model s h in
    let reserved = (reserve_tokens id n actor estimate model s).1 in
    let there : find id reserved.accounts ≡ some (add_reserved n a) =
      rw accounts (find-update_self id (add_reserved n) a s.accounts (id-add_reserved n) found) in
    let (c, result, kept, bounds, unbilled, account) =
      commit_usage-IsCharge id n usage actor model reserved (add_reserved n a) there in
    let full =
      full_charge _ _ (pos usage.credits) c.charged_credits
        (funds_after_reserve a n (pos usage.credits) can le) bounds in
    (
      a,
      c,
      found,
      result,
      full,
      unbilled ∙ ap (λ z. pos usage.credits -ℤ z) full ∙ sub_self (pos usage.credits),
      kept
          ∙ ap some (
              account
              ∙ restored a n c.charged_credits
              ∙ ap (λ z. record a { used_tokens = a.used_tokens +ℤ z }) full),
    )
