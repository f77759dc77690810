-- ===== src/Ai/Credits/Reconcile.antt =====
-- `reconcileOverdrawnUsageAccounts`: what it takes off the usage of an account.
pub mod Visit
pub mod Settled
use backend_softlogic.Base.{
  String, ◌≡◌, refl, ap, sym, subst, ◌∙◌, ◌⊎◌, inl, inr, ◌||◌, Option, none, some, List, [], ◌∷◌,
  keep, take, arith, Bool-cases, eq_iff, ◌==◌, if◌then◌else◌,
}
use backend_softlogic.Base.Int.{ℤ, pos, ◌+ℤ◌, ◌-ℤ◌, ◌≤ℤ◌, neg_ℤ, ltb_ℤ, leb_ℤ, int_laws}
use backend_softlogic.Base.Exec.{pure, transaction, ◌>>=◌}
use backend_softlogic.Base.Keeps.{Keeps, Keeps-pure, Keeps-if, Keeps-bind, Keeps-transaction}
use backend_softlogic.Base.Table.{find, update, find-update_self, find-update_ne, find-key}
use backend_softlogic.Ai.Store.{AiCreditAccount, AiStore, account_row, find_account}
use backend_softlogic.Ai.Accounts.{account_available, account_deficit}
use backend_softlogic.Ai.Credits.Balance.{available-subtract_used}
use backend_softlogic.Ai.Credits.{
  subtract_used, overdraw_adjustment, correct, correct_latest, reconcile_account, reconcile_each,
  may_be_overdrawn, reconcile_overdrawn_usage_accounts,
}

sub_zero : (z : ℤ) → z -ℤ pos 0 ≡ z
sub_zero z = omega int_laws

-- The account `b` is the account `a` with an amount taken off what is used, which is not negative, at
-- most the deficit, and zero or at most what is used.
pub record Corrected (a b : AiCreditAccount) : Type 0 where
  pub amount : ℤ
  pub nonneg : pos 0 ≤ℤ amount
  pub within : amount ≤ℤ account_deficit a
  pub covered : (amount ≡ pos 0) ⊎ (amount ≤ℤ a.used_tokens)
  pub same : b ≡ record a { used_tokens = a.used_tokens -ℤ amount }

abbrev pub deficit_of : ℤ → ℤ
deficit_of available = if ltb_ℤ available (pos 0) then neg_ℤ available else pos 0

deficit_nonneg : (available : ℤ) → pos 0 ≤ℤ deficit_of available
unfolding ◌-ℤ◌
deficit_nonneg available = ground arith

-- what may be taken off usage `u` for a deficit `d`
abbrev pub adjust : ℤ → ℤ → ℤ
adjust d u = if leb_ℤ d (pos 0) || leb_ℤ u (pos 0) then pos 0 else if ltb_ℤ u d then u else d

adjust_bounds :
    (d u : ℤ)
    → pos 0 ≤ℤ d
    → (pos 0 ≤ℤ adjust d u) × (adjust d u ≤ℤ d) × ((adjust d u ≡ pos 0) ⊎ (adjust d u ≤ℤ u))
adjust_bounds d u h = (ground arith, ground arith, ground arith)

deficit_left :
    (available x y : ℤ)
    → pos 0 ≤ℤ x
    → pos 0 ≤ℤ y
    → x ≤ℤ deficit_of available
    → y ≤ℤ deficit_of (available +ℤ x)
    → x +ℤ y ≤ℤ deficit_of available
unfolding ◌+ℤ◌ ◌-ℤ◌
deficit_left available x y hx hy kx ky = ground arith

take_off_twice : (u x y : ℤ) → u -ℤ x -ℤ y ≡ u -ℤ (x +ℤ y)
take_off_twice u x y = omega int_laws

covered_twice :
    (u x y : ℤ)
    → (x ≡ pos 0) ⊎ (x ≤ℤ u)
    → (y ≡ pos 0) ⊎ (y ≤ℤ u -ℤ x)
    → (x +ℤ y ≡ pos 0) ⊎ (x +ℤ y ≤ℤ u)
unfolding ◌+ℤ◌ ◌-ℤ◌
covered_twice u x y (inl hx) (inl hy) = inl (rw (hx, hy) refl)
covered_twice u x y (inl hx) (inr hy) = inr (ground arith)
covered_twice u x y (inr hx) (inl hy) = inr (ground arith)
covered_twice u x y (inr hx) (inr hy) = inr (ground arith)

Corrected-refl : (a : AiCreditAccount) → Corrected a a
unfolding account_deficit
Corrected-refl a = record {
  amount = pos 0;
  nonneg = omega arith;
  within = deficit_nonneg (account_available a);
  covered = inl refl;
  same = ap (λ z. record a { used_tokens = z }) (sym (sub_zero a.used_tokens));
}

Corrected-again :
    (a b : AiCreditAccount) → Corrected a b → Corrected a (subtract_used (overdraw_adjustment b) b)
unfolding account_deficit overdraw_adjustment subtract_used
Corrected-again a b c =
    let x = c.amount in
    let corrected = subtract_used x a in
    let available : account_available b ≡ account_available a +ℤ x =
      ap account_available c.same ∙ available-subtract_used x a in
    let used : b.used_tokens ≡ a.used_tokens -ℤ x =
      ap (λ (y : AiCreditAccount). y.used_tokens) c.same in
    let y = overdraw_adjustment b in
    let (low, high, cover) =
      adjust_bounds (account_deficit b) b.used_tokens (deficit_nonneg (account_available b)) in
    record {
      amount = x +ℤ y;
      nonneg = let one = c.nonneg in omega int_laws;
      within =
          deficit_left (account_available a) x y c.nonneg low c.within
            (subst (λ z. y ≤ℤ deficit_of z) available high);
      covered =
          covered_twice a.used_tokens x y c.covered
            (subst (λ z. (y ≡ pos 0) ⊎ (y ≤ℤ z)) used cover);
      same =
          ap (λ (z : AiCreditAccount). record z { used_tokens = z.used_tokens -ℤ y }) c.same
          ∙ ap (λ z. record a { used_tokens = z }) (take_off_twice a.used_tokens x y);
    }

-- what is left of one account
Traces : String → AiCreditAccount → AiStore → Type 0
Traces j a s = (b : AiCreditAccount) × (find j s.accounts ≡ some b) × Corrected a b

module _ (j : String) (a : AiCreditAccount) where
  correct-Traces :
      (latest : AiCreditAccount) (s : AiStore)
      → find latest.id s.accounts ≡ some latest
      → Traces j a s
      → Traces j a (correct latest s).1
  unfolding Traces correct
  correct-Traces latest s e (b, found, c) =
      let f = subtract_used (overdraw_adjustment latest) in
      let written : (correct latest s).1.accounts ≡ update latest.id f s.accounts = ground arith in
      elim (Bool-cases (latest.id == j)) [
        | inl here ↦
            let q = (eq_iff latest.id j).0 here in
            let at_j = subst (λ k. find k s.accounts ≡ some latest) q e in
            let same : latest ≡ b = cc in
            (
              f latest,
              ap (find j) written
                  ∙ subst (λ k. find k (update latest.id f s.accounts) ≡ some (f latest)) q
                      (find-update_self latest.id f latest s.accounts
                        (λ x. unfold subtract_used in refl) e),
              Corrected-again a latest (subst (Corrected a) (sym same) c),
            )
        | inr there ↦ (
          b,
          ap (find j) written
              ∙ find-update_ne latest.id j f s.accounts (λ x. unfold subtract_used in refl)
                  (λ q. let h = (eq_iff latest.id j).1 q in cc)
              ∙ found,
          c,
        )
      ]

  correct_latest-Traces :
      (id : String) (found : Option AiCreditAccount) (s : AiStore)
      → find id s.accounts ≡ found
      → Traces j a s
      → Traces j a (correct_latest found s).1
  unfolding correct_latest
  correct_latest-Traces id none s e h = h
  correct_latest-Traces id (some latest) s e h =
      elim (Bool-cases
        (leb_ℤ (account_deficit latest) (pos 0) || leb_ℤ latest.used_tokens (pos 0))) [
          | inl fine ↦ rw fine h
          | inr over ↦ rw over (correct-Traces latest s (find-key id latest s.accounts e) h)
        ]

  reconcile_account-Traces :
      (account : AiCreditAccount) → Keeps (Traces j a) (reconcile_account account)
  unfolding reconcile_account
  reconcile_account-Traces account =
      Keeps-if _ (pure tt) (transaction (find_account account.id >>= correct_latest))
        (Keeps-pure tt)
        (Keeps-transaction _ (record {
          at = λ s h. correct_latest-Traces account.id (find account.id s.accounts) s refl h;
        }))

  reconcile_each-Traces :
      (accounts : List AiCreditAccount) → Keeps (Traces j a) (reconcile_each accounts)
  unfolding reconcile_each
  reconcile_each-Traces [] = Keeps-pure tt
  reconcile_each-Traces (x ∷ rest) =
      Keeps-bind (reconcile_account x) _ (reconcile_account-Traces x)
        (λ _. reconcile_each-Traces rest)

-- The reconciliation takes off the usage of each account an amount that is not negative, at most the
-- account's deficit, and zero or at most what is used; nothing else of any account changes.
pub reconcile_overdrawn-Corrected :
    (s : AiStore) (j : String) (a : AiCreditAccount)
    → find j s.accounts ≡ some a
    → (b : AiCreditAccount) × (find j (reconcile_overdrawn_usage_accounts s).1.accounts ≡ some b)
      × Corrected a b
unfolding reconcile_overdrawn_usage_accounts Traces
reconcile_overdrawn-Corrected s j a e =
    (reconcile_each-Traces j a (take 1000 (keep may_be_overdrawn s.accounts))).at s
      (a, e, Corrected-refl a)
