-- ===== src/Ai/Credits/Refusal.antt =====
-- What the error of a refused reservation says is missing.
use backend_softlogic.Base.{
  subst, ℕ, String, ◌≡◌, ◌↔◌, refl, inl, inr, true, false, some, arith, Option-cases, trim_or,
  if◌then◌else◌,
}
use backend_softlogic.Base.Int.{ℤ, pos, ◌+ℤ◌, ◌-ℤ◌, ◌≤ℤ◌, ltb_ℤ, neg_ℤ}
use backend_softlogic.Base.Exec.{ok, err, transaction}
use backend_softlogic.Base.Failure.{Shortage, credits_insufficient}
use backend_softlogic.Base.Table.{find, update, find-key, key-find, find-update_self}
use backend_softlogic.Access.Roles.{Actor, is_super_admin}
use backend_softlogic.Ai.Pricing.{AiUsageEstimate}
use backend_softlogic.Ai.Store.{AiCreditAccount, AiStore, account_row}
use backend_softlogic.Ai.Accounts.{
  account_available, account_deficit, assert_super_admin, to_big, master_account_id,
}
use backend_softlogic.Ai.Credits.{add_allocated, reserve_tokens, shortage, top_up, top_up_account}
use backend_softlogic.Ai.Credits.Balance.{available-add_allocated}
use backend_softlogic.Ai.Credits.Reservation.{
  CanReserve, CanReserve-reserve_tokens, reserve_tokens-found,
}

module _ (id : String) (n : ℕ) (actor : Actor) (estimate : AiUsageEstimate) (model : String) where
  refused :
      (s : AiStore) (sh : Shortage)
      → (reserve_tokens id (pos n) actor estimate model s).0 ≡ err (credits_insufficient sh)
      → (a : AiCreditAccount) × (find id s.accounts ≡ some a)
        × (a.unlimited ≡ false)
        × (ltb_ℤ (account_available a) (pos n) ≡ true)
        × (sh ≡ shortage (account_available a) (pos n) (account_deficit a))
  unfolding reserve_tokens
  refused s sh h = elim (Option-cases (find id s.accounts)) [
    | inl e ↦ absurd (ground arith)
    | inr (a, e) ↦ (a, e, ground arith, ground arith, ground arith)
  ]

missing_credits :
    (available : ℤ) (n : ℕ) (x : ℤ)
    → ltb_ℤ available (pos n) ≡ true
    → let sh =
        shortage available (pos n) (if ltb_ℤ available (pos 0) then neg_ℤ available else pos 0) in
      (pos n ≤ℤ available +ℤ x) ↔ (sh.minimum_top_up +ℤ sh.deficit ≤ℤ x)
unfolding ◌+ℤ◌ ◌-ℤ◌
missing_credits available n x h = (λ k. ground arith, λ k. ground arith)

to_big_same : (x : ℤ) → pos 0 ≤ℤ x → to_big x ≡ x
to_big_same x h = ground arith

top_up_account-found :
    (admin : Actor) (x : ℤ) (id : String) (s : AiStore) (a : AiCreditAccount)
    → find id s.accounts ≡ some a
    → (transaction (top_up_account admin x id) s).1.accounts
      ≡ update a.id (add_allocated x) s.accounts
unfolding top_up_account
top_up_account-found admin x id s a e = let own = find-key id a s.accounts e in ground arith

topped_up :
    (admin : Actor) (id : String) (x : ℤ) (s : AiStore) (a : AiCreditAccount)
    → is_super_admin admin.role ≡ true
    → trim_or (some id) master_account_id ≡ id
    → pos 0 ≤ℤ x
    → find id s.accounts ≡ some a
    → find id (top_up admin (some id) x s).1.accounts ≡ some (add_allocated x a)
unfolding top_up assert_super_admin
topped_up admin id x s a super plain nonneg e =
    let written = top_up_account-found admin x id s a e in
    let key = key-find id a s.accounts e in
    let kept =
      find-update_self a.id (add_allocated x) a s.accounts (λ y. unfold add_allocated in refl)
        (find-key id a s.accounts e) in
    rw (super, plain, to_big_same x nonneg, written)
      (subst (λ k. find k (update a.id (add_allocated x) s.accounts) ≡ some (add_allocated x a)) key
        kept)

funded_iff :
    (a : AiCreditAccount) (n : ℕ) (x : ℤ) (sh : Shortage)
    → ltb_ℤ (account_available a) (pos n) ≡ true
    → sh ≡ shortage (account_available a) (pos n) (account_deficit a)
    → (pos n ≤ℤ account_available (add_allocated x a)) ↔ (sh.minimum_top_up +ℤ sh.deficit ≤ℤ x)
unfolding account_deficit
funded_iff a n x sh short exact =
    rw (available-add_allocated x a, exact) (missing_credits (account_available a) n x short)

-- A reservation that is refused for lack of credits names the shortage exactly. Once a super admin
-- has topped the account up by `x`, the same reservation succeeds if and only if `x` is at least the
-- reported minimum top-up and the reported deficit together. (So on an overdrawn account, whose
-- deficit is positive, the reported minimum top-up alone is not enough.)
pub credits_insufficient_exact :
    (id : String) (n : ℕ) (actor admin : Actor) (estimate : AiUsageEstimate) (model : String)
    (s : AiStore) (sh : Shortage) (x : ℤ)
    → (reserve_tokens id (pos n) actor estimate model s).0 ≡ err (credits_insufficient sh)
    → is_super_admin admin.role ≡ true
    → trim_or (some id) master_account_id ≡ id
    → pos 0 ≤ℤ x
    → ((reserve_tokens id (pos n) actor estimate model (top_up admin (some id) x s).1).0 ≡ ok tt)
      ↔ (sh.minimum_top_up +ℤ sh.deficit ≤ℤ x)
credits_insufficient_exact id n actor admin estimate model s sh x h super plain nonneg =
    let (a, e, limited, short, exact) = refused id n actor estimate model s sh h in
    let there = topped_up admin id x s a super plain nonneg e in
    let after = (top_up admin (some id) x s).1 in
    let rule = funded_iff a n x sh short exact in
    (
      λ r.
          let (b, eb, can, _) = reserve_tokens-found id (pos n) actor estimate model after r in
          let same : b ≡ add_allocated x a = cc in
          elim (subst (λ c. CanReserve c (pos n)) same can).funded [
            | inl free ↦ absurd (unfold add_allocated in cc)
            | inr cover ↦ rule.0 cover
          ],
      λ le.
          CanReserve-reserve_tokens id (pos n) actor estimate model after (add_allocated x a) there
            (record { enabled = unfold add_allocated in refl; funded = inr (rule.1 le) }),
    )
