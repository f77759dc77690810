-- ===== src/Ai/Credits/Reservation.antt =====
-- A request's life on its account: `reserveTokens` and `refundReservation`.
use backend_softlogic.Base.{
  String, ◌≡◌, refl, ap, ◌∙◌, ◌⊎◌, inl, inr, true, false, some, arith, Option-cases,
}
use backend_softlogic.Base.Int.{ℤ, ◌≤ℤ◌, add_sub_cancel}
use backend_softlogic.Base.Exec.{ok, err}
use backend_softlogic.Base.Failure.{Failure}
use backend_softlogic.Base.Table.{find, update, find-update_self, update-update, update_id}
use backend_softlogic.Access.Roles.{Actor}
use backend_softlogic.Ai.Pricing.{AiUsageEstimate}
use backend_softlogic.Ai.Store.{AiCreditAccount, AiStore, account_row}
use backend_softlogic.Ai.Accounts.{account_available, is_disabled}
use backend_softlogic.Ai.Credits.{
  add_reserved, release_reserved, reserve_tokens, refund_reservation,
}

-- An account that may reserve the amount.
pub record CanReserve (a : AiCreditAccount) (amount : ℤ) : Type 0 where
  pub enabled : is_disabled a.status ≡ false
  pub funded : (a.unlimited ≡ true) ⊎ (amount ≤ℤ account_available a)

module _ (id : String) (amount : ℤ) (actor : Actor) (estimate : AiUsageEstimate)
    (model : String) where
  pub reserve_tokens-found :
      (s : AiStore)
      → (reserve_tokens id amount actor estimate model s).0 ≡ ok tt
      → (a : AiCreditAccount) × (find id s.accounts ≡ some a)
        × CanReserve a amount
        × ((reserve_tokens id amount actor estimate model s).1.accounts
            ≡ update id (add_reserved amount) s.accounts)
  unfolding reserve_tokens
  reserve_tokens-found s h = elim (Option-cases (find id s.accounts)) [
    | inl e ↦ absurd (ground arith)
    | inr (a, e) ↦ (a, e, ground arith, ground arith)
  ]

  pub CanReserve-reserve_tokens :
      (s : AiStore) (a : AiCreditAccount)
      → find id s.accounts ≡ some a
      → CanReserve a amount
      → (reserve_tokens id amount actor estimate model s).0 ≡ ok tt
  unfolding reserve_tokens
  CanReserve-reserve_tokens s a e h = ground arith

  pub reserve_tokens_fails :
      (s : AiStore) (f : Failure)
      → (reserve_tokens id amount actor estimate model s).0 ≡ err f
      → (reserve_tokens id amount actor estimate model s).1 ≡ s
  unfolding reserve_tokens
  reserve_tokens_fails s f h = ground arith

pub id-add_reserved : (x : ℤ) (a : AiCreditAccount) → (add_reserved x a).id ≡ a.id
unfolding add_reserved
id-add_reserved x a = refl

pub unlimited-add_reserved :
    (x : ℤ) (a : AiCreditAccount) → (add_reserved x a).unlimited ≡ a.unlimited
unfolding add_reserved
unlimited-add_reserved x a = refl

release-add : (x : ℤ) (a : AiCreditAccount) → release_reserved x (add_reserved x a) ≡ a
unfolding release_reserved add_reserved
release-add x a = ap (λ z. record a { reserved_tokens = z }) (add_sub_cancel a.reserved_tokens x)

refund_reservation-found :
    (id : String) (x : ℤ) (actor : Actor) (s : AiStore) (a : AiCreditAccount)
    → find id s.accounts ≡ some a
    → ((refund_reservation id x actor s).0 ≡ ok (release_reserved x a))
      × ((refund_reservation id x actor s).1.accounts ≡ update id (release_reserved x) s.accounts)
unfolding refund_reservation
refund_reservation-found id x actor s a e = ground arith

-- A reservation that is refunded leaves every account as it was: a successful `reserveTokens`
-- followed by `refundReservation` of the same amount succeeds, returns the account as it stood
-- before, and restores the table of accounts.
pub reserve-refund :
    (id : String) (amount : ℤ) (actor : Actor) (estimate : AiUsageEstimate) (model : String)
    (s : AiStore)
    → (reserve_tokens id amount actor estimate model s).0 ≡ ok tt
    → let after =
        refund_reservation id amount actor (reserve_tokens id amount actor estimate model s).1 in
      (a : AiCreditAccount) × (find id s.accounts ≡ some a)
      × (after.0 ≡ ok a)
      × (after.1.accounts ≡ s.accounts)
reserve-refund id amount actor estimate model s h =
    let (a, found, can, accounts) = reserve_tokens-found id amount actor estimate model s h in
    let reserved = (reserve_tokens id amount actor estimate model s).1 in
    let there : find id reserved.accounts ≡ some (add_reserved amount a) =
      rw accounts
        (find-update_self id (add_reserved amount) a s.accounts (id-add_reserved amount) found) in
    let (result, written) =
      refund_reservation-found id amount actor reserved (add_reserved amount a) there in
    (
      a,
      found,
      result ∙ ap ok (release-add amount a),
      written
          ∙ ap (update id (release_reserved amount)) accounts
          ∙ update-update id (add_reserved amount) (release_reserved amount) s.accounts
              (id-add_reserved amount)
          ∙ update_id id (λ x. release_reserved amount (add_reserved amount x)) s.accounts
              (λ x e. release-add amount x),
    )
