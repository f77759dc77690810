-- ===== src/Ai/Credits/Reconcile/Visit.antt =====
-- What a visit of `reconcileOverdrawnUsageAccounts` to one account leaves of it and of the others.
use backend_softlogic.Base.{
  String, ◌≡◌, ◌≢◌, refl, ap, sym, subst, ◌∙◌, ◌⊎◌, inl, inr, ◌||◌, true, false, Option, none, some,
  arith, Bool-cases, eq_iff, ◌==◌,
}
use backend_softlogic.Base.Int.{ℤ, pos, ◌+ℤ◌, ◌-ℤ◌, ◌≤ℤ◌, leb_ℤ}
use backend_softlogic.Base.Exec.{Result, ok, err, settle}
use backend_softlogic.Base.Table.{
  find, update, find-update_self, find-update_ne, find-key, key-find,
}
use backend_softlogic.Ai.Store.{AiCreditAccount, AiStore, account_row}
use backend_softlogic.Ai.Accounts.{account_available, account_deficit}
use backend_softlogic.Ai.Credits.Balance.{available-subtract_used}
use backend_softlogic.Ai.Credits.{
  subtract_used, overdraw_adjustment, correct, correct_latest, reconcile_account,
}
use backend_softlogic.Ai.Credits.Reconcile.{deficit_of, adjust}

-- Nothing is left to correct: the account has no deficit, or nothing is used.
abbrev pub IsSettled : AiCreditAccount → Type 0
IsSettled b = (account_deficit b ≤ℤ pos 0) ⊎ (b.used_tokens ≤ℤ pos 0)

adjusted_deficit :
    (available u : ℤ)
    → (deficit_of (available +ℤ adjust (deficit_of available) u) ≤ℤ pos 0)
      ⊎ (u -ℤ adjust (deficit_of available) u ≤ℤ pos 0)
unfolding ◌+ℤ◌ ◌-ℤ◌
adjusted_deficit available u = ground arith

subtract_used-IsSettled :
    (b : AiCreditAccount) → IsSettled (subtract_used (overdraw_adjustment b) b)
unfolding account_deficit overdraw_adjustment
subtract_used-IsSettled b =
    subst
      (λ z.
        (deficit_of z ≤ℤ pos 0) ⊎ ((subtract_used (overdraw_adjustment b) b).used_tokens ≤ℤ pos 0))
      (sym (available-subtract_used (overdraw_adjustment b) b))
      (unfold subtract_used in adjusted_deficit (account_available b) b.used_tokens)

fine-IsSettled :
    (b : AiCreditAccount)
    → (leb_ℤ (account_deficit b) (pos 0) || leb_ℤ b.used_tokens (pos 0)) ≡ true
    → IsSettled b
fine-IsSettled b h = elim (Bool-cases (leb_ℤ (account_deficit b) (pos 0))) [
  | inl d ↦ inl (ground arith)
  | inr d ↦ inr (ground arith)
]

skipped-IsSettled :
    (b : AiCreditAccount) → leb_ℤ (overdraw_adjustment b) (pos 0) ≡ true → IsSettled b
unfolding overdraw_adjustment
skipped-IsSettled b h =
    elim (Bool-cases (leb_ℤ (account_deficit b) (pos 0) || leb_ℤ b.used_tokens (pos 0))) [
      | inl fine ↦ fine-IsSettled b fine
      | inr over ↦ absurd (ground arith)
    ]

module _ (j : String) where
  -- the account is there and settled
  unfoldable pub Done : AiStore → Type 0
  Done s = (b : AiCreditAccount) × (find j s.accounts ≡ some b) × IsSettled b

  correct-same :
      (latest : AiCreditAccount) (s : AiStore)
      → find latest.id s.accounts ≡ some latest
      → latest.id ≡ j
      → Done (correct latest s).1
  unfolding Done correct
  correct-same latest s e q =
      let f = subtract_used (overdraw_adjustment latest) in
      let written : (correct latest s).1.accounts ≡ update latest.id f s.accounts = ground arith in
      (
        f latest,
        ap (find j) written
            ∙ subst (λ k. find k (update latest.id f s.accounts) ≡ some (f latest)) q
                (find-update_self latest.id f latest s.accounts (λ x. unfold subtract_used in refl)
                  e),
        subtract_used-IsSettled latest,
      )

  correct-other :
      (latest : AiCreditAccount) (s : AiStore)
      → find latest.id s.accounts ≡ some latest
      → latest.id ≢ j
      → find j (correct latest s).1.accounts ≡ find j s.accounts
  unfolding correct
  correct-other latest s e ne =
      let f = subtract_used (overdraw_adjustment latest) in
      let written : (correct latest s).1.accounts ≡ update latest.id f s.accounts = ground arith in
      ap (find j) written
      ∙ find-update_ne latest.id j f s.accounts (λ x. unfold subtract_used in refl) ne

  correct_latest-other :
      (id : String) (found : Option AiCreditAccount) (s : AiStore)
      → find id s.accounts ≡ found
      → id ≢ j
      → find j (correct_latest found s).1.accounts ≡ find j s.accounts
  unfolding correct_latest
  correct_latest-other id none s e ne = refl
  correct_latest-other id (some latest) s e ne =
      elim (Bool-cases
        (leb_ℤ (account_deficit latest) (pos 0) || leb_ℤ latest.used_tokens (pos 0))) [
          | inl fine ↦ rw fine refl
          | inr over ↦ rw over (
              correct-other latest s (find-key id latest s.accounts e)
                (λ q. ne (sym (key-find id latest s.accounts e) ∙ q)))
        ]

  correct_latest-ok :
      (found : Option AiCreditAccount) (s : AiStore)
      → (id : String) → find id s.accounts ≡ found
      → (correct_latest found s).0 ≡ ok tt
  unfolding correct_latest correct
  correct_latest-ok none s id e = refl
  correct_latest-ok (some latest) s id e =
      let there = find-key id latest s.accounts e in
      elim (Bool-cases
        (leb_ℤ (account_deficit latest) (pos 0) || leb_ℤ latest.used_tokens (pos 0))) [
          | inl fine ↦ rw fine refl
          | inr over ↦ rw over (ground (arith, there))
        ]

  correct_latest-Done :
      (found : Option AiCreditAccount) (s : AiStore)
      → find j s.accounts ≡ found
      → (a : AiCreditAccount) → found ≡ some a
      → Done (correct_latest found s).1
  unfolding Done correct_latest
  correct_latest-Done none s e a h = absurd (cc)
  correct_latest-Done (some latest) s e a h =
      elim (Bool-cases
        (leb_ℤ (account_deficit latest) (pos 0) || leb_ℤ latest.used_tokens (pos 0))) [
          | inl fine ↦ rw fine (latest, e, fine-IsSettled latest fine)
          | inr over ↦ rw over (
              correct-same latest s (find-key j latest s.accounts e)
                (key-find j latest s.accounts e))
        ]

  settle-other :
      (s : AiStore) (r : Result (Unit {0})) (s' : AiStore)
      → find j s'.accounts ≡ find j s.accounts
      → find j (settle s (r, s')).1.accounts ≡ find j s.accounts
  settle-other s (ok _) s' e = e
  settle-other s (err _) s' e = refl

  settle-Done :
      (s : AiStore) (r : Result (Unit {0})) (s' : AiStore)
      → r ≡ ok tt
      → Done s'
      → Done (settle s (r, s')).1
  settle-Done s (ok _) s' e h = h
  settle-Done s (err _) s' e h = absurd (cc)

  pub reconcile_account-other :
      (x : AiCreditAccount) (s : AiStore)
      → x.id ≢ j
      → find j (reconcile_account x s).1.accounts ≡ find j s.accounts
  unfolding reconcile_account
  reconcile_account-other x s ne = elim (Bool-cases (leb_ℤ (overdraw_adjustment x) (pos 0))) [
    | inl skip ↦ rw skip refl
    | inr go ↦
        let (r, s') = correct_latest (find x.id s.accounts) s in
        rw go (settle-other s r s' (correct_latest-other x.id (find x.id s.accounts) s refl ne))
  ]

  reconcile_account-go :
      (x a : AiCreditAccount) (s : AiStore)
      → find j s.accounts ≡ some a
      → x.id ≡ j
      → leb_ℤ (overdraw_adjustment x) (pos 0) ≡ false
      → Done (reconcile_account x s).1
  unfolding reconcile_account Done
  reconcile_account-go x a s e q go =
      let (r, s') = correct_latest (find x.id s.accounts) s in
      rw go (
        settle-Done s r s' (correct_latest-ok (find x.id s.accounts) s x.id refl) (
          subst (λ k. Done (correct_latest (find k s.accounts) s).1) (sym q)
            (correct_latest-Done (find j s.accounts) s refl a e)))

  pub reconcile_account-Done :
      (a : AiCreditAccount) (s : AiStore)
      → find j s.accounts ≡ some a
      → a.id ≡ j
      → Done (reconcile_account a s).1
  unfolding reconcile_account Done
  reconcile_account-Done a s e q = elim (Bool-cases (leb_ℤ (overdraw_adjustment a) (pos 0))) [
    | inl skip ↦ rw skip (a, e, skipped-IsSettled a skip)
    | inr go ↦ reconcile_account-go a a s e q go
  ]

  settle-ok_result :
      (s : AiStore) (r : Result (Unit {0})) (s' : AiStore)
      → r ≡ ok tt
      → (settle s (r, s')).0 ≡ ok tt
  settle-ok_result s (ok _) s' e = e
  settle-ok_result s (err _) s' e = absurd (cc)

  pub reconcile_account-ok : (x : AiCreditAccount) (s : AiStore) → (reconcile_account x s).0 ≡ ok tt
  unfolding reconcile_account
  reconcile_account-ok x s = elim (Bool-cases (leb_ℤ (overdraw_adjustment x) (pos 0))) [
    | inl skip ↦ rw skip refl
    | inr go ↦
        let (r, s') = correct_latest (find x.id s.accounts) s in
        rw go (settle-ok_result s r s' (correct_latest-ok (find x.id s.accounts) s x.id refl))
  ]

  pub reconcile_account-Done_again :
      (x : AiCreditAccount) (s : AiStore) → Done s → Done (reconcile_account x s).1
  unfolding reconcile_account Done
  reconcile_account-Done_again x s (b, found, settled) = elim (Bool-cases (x.id == j)) [
    | inl here ↦ elim (Bool-cases (leb_ℤ (overdraw_adjustment x) (pos 0))) [
      | inl skip ↦ rw skip (b, found, settled)
      | inr go ↦ reconcile_account-go x b s found ((eq_iff x.id j).0 here) go
    ]
    | inr there ↦
        let apart : x.id ≢ j = λ q. let here = (eq_iff x.id j).1 q in cc in
        (b, reconcile_account-other x s apart ∙ found, settled)
  ]
