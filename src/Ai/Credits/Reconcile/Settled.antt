-- ===== src/Ai/Credits/Reconcile/Settled.antt =====
-- What `reconcileOverdrawnUsageAccounts` does to the accounts that it chooses and to the others.
use backend_softlogic.Base.{
  ℕ, String, ◌≡◌, ◌≢◌, refl, ap, sym, subst, ◌∙◌, ◌⊎◌, inl, inr, Bool, true, false, none, some,
  List, [], ◌∷◌, keep, take, any, All, zero, suc, arith, Bool-cases, eq_iff, ◌==◌,
}
use backend_softlogic.Base.Table.{find}
use backend_softlogic.Base.Table.Columns.{IsKeyed}
use backend_softlogic.Ai.Store.{AiCreditAccount, AiStore, account_row}
use backend_softlogic.Ai.Credits.{
  reconcile_account, reconcile_each, may_be_overdrawn, reconcile_overdrawn_usage_accounts,
}
use backend_softlogic.Ai.Credits.Reconcile.Visit.{
  IsSettled, Done, reconcile_account-Done, reconcile_account-Done_again, reconcile_account-other,
  reconcile_account-ok,
}
use backend_softlogic.Ai.Credits.Reconcile.{Corrected, reconcile_overdrawn-Corrected}

module _ (j : String) where
  reconcile_each-next :
      (x : AiCreditAccount) (rest : List AiCreditAccount) (s : AiStore)
      → (reconcile_each (x ∷ rest) s).1 ≡ (reconcile_each rest (reconcile_account x s).1).1
  unfolding reconcile_each
  reconcile_each-next x rest s = let fine = reconcile_account-ok j x s in ground arith

  reconcile_each-other :
      (xs : List AiCreditAccount) (s : AiStore)
      → any (λ (x : AiCreditAccount). x.id == j) xs ≡ false
      → find j (reconcile_each xs s).1.accounts ≡ find j s.accounts
  unfolding reconcile_each
  reconcile_each-other [] s h = refl
  reconcile_each-other (x ∷ rest) s h =
      let apart : x.id ≢ j = λ q. let here = (eq_iff x.id j).1 q in ground arith in
      ap (λ (t : AiStore). find j t.accounts) (reconcile_each-next x rest s)
      ∙ reconcile_each-other rest (reconcile_account x s).1 (ground arith)
      ∙ reconcile_account-other j x s apart

  reconcile_each-Done_again :
      (xs : List AiCreditAccount) (s : AiStore) → Done j s → Done j (reconcile_each xs s).1
  unfolding reconcile_each
  reconcile_each-Done_again [] s h = h
  reconcile_each-Done_again (x ∷ rest) s h = subst (Done j) (sym (reconcile_each-next x rest s)) (
      reconcile_each-Done_again rest (reconcile_account x s).1
        (reconcile_account-Done_again j x s h))

  reconcile_each-Done :
      (a : AiCreditAccount) (xs : List AiCreditAccount) (s : AiStore)
      → All (λ (x : AiCreditAccount). x.id ≡ j → x ≡ a) xs
      → find j s.accounts ≡ some a
      → any (λ (x : AiCreditAccount). x.id == j) xs ≡ true
      → Done j (reconcile_each xs s).1
  reconcile_each-Done a [] s same e h = absurd (cc)
  reconcile_each-Done a (x ∷ rest) s same e h =
      subst (Done j) (sym (reconcile_each-next x rest s)) (elim (Bool-cases (x.id == j)) [
        | inl here ↦
            let q = (eq_iff x.id j).0 here in
            let x_a = same.0 q in
            reconcile_each-Done_again rest (reconcile_account x s).1
              (reconcile_account-Done j x s (e ∙ ap some (sym x_a)) q)
        | inr there ↦
            let apart : x.id ≢ j = λ q. let here = (eq_iff x.id j).1 q in cc in
            reconcile_each-Done a rest (reconcile_account x s).1 same.1
              (reconcile_account-other j x s apart ∙ e) (ground arith)
      ])

gone-All :
    (j : String) (a : AiCreditAccount) (t : List AiCreditAccount)
    → find j t ≡ none
    → All (λ (x : AiCreditAccount). x.id ≡ j → x ≡ a) t
unfolding find
gone-All j a [] e = tt
gone-All j a (x ∷ t) e =
    (λ q. absurd (let here = (eq_iff x.id j).1 q in ground arith), gone-All j a t (ground arith))

same-All :
    (j : String) (a : AiCreditAccount) (t : List AiCreditAccount)
    → IsKeyed t
    → find j t ≡ some a
    → All (λ (x : AiCreditAccount). x.id ≡ j → x ≡ a) t
unfolding find
same-All j a [] u e = tt
same-All j a (x ∷ t) u e = elim (Bool-cases (x.id == j)) [
  | inl here ↦
      let q = (eq_iff x.id j).0 here in
      (λ p. ground arith, gone-All j a t (subst (λ k. find k t ≡ none) q u.0))
  | inr there ↦
      (λ p. absurd (let here = (eq_iff x.id j).1 p in cc), same-All j a t u.1 (ground arith))
]

All-keep :
    (P : AiCreditAccount → Type 0) (p : AiCreditAccount → Bool) (t : List AiCreditAccount)
    → All P t
    → All P (keep p t)
All-keep P p [] h = tt
All-keep P p (x ∷ t) h = elim (Bool-cases (p x)) [
  | inl kept ↦ rw kept (h.0, All-keep P p t h.1)
  | inr left ↦ rw left (All-keep P p t h.1)
]

All-take :
    (P : AiCreditAccount → Type 0) (n : ℕ) (t : List AiCreditAccount) → All P t → All P (take n t)
All-take P zero t h = tt
All-take P (suc n) [] h = tt
All-take P (suc n) (x ∷ t) h = (h.0, All-take P n t h.1)

-- the account is one of those that the reconciliation goes through
abbrev pub is_chosen : String → AiStore → Bool
is_chosen j s =
    any (λ (x : AiCreditAccount). x.id == j) (take 1000 (keep may_be_overdrawn s.accounts))

-- Where ids are unique, the reconciliation takes off the usage of each account an amount that is not
-- negative, at most the account's deficit, and zero or at most what is used, and nothing else of any
-- account changes. An account that it goes through is then no longer overdrawn, or nothing of it is
-- used any more; another one is as it was before.
pub reconcile_overdrawn-IsSettled :
    (s : AiStore) (j : String) (a : AiCreditAccount)
    → IsKeyed s.accounts
    → find j s.accounts ≡ some a
    → (b : AiCreditAccount) × (find j (reconcile_overdrawn_usage_accounts s).1.accounts ≡ some b)
      × Corrected a b
      × (((is_chosen j s ≡ true) × IsSettled b) ⊎ ((is_chosen j s ≡ false) × (b ≡ a)))
unfolding reconcile_overdrawn_usage_accounts Done
reconcile_overdrawn-IsSettled s j a keyed e =
    let xs = take 1000 (keep may_be_overdrawn s.accounts) in
    let (b, there, c) = reconcile_overdrawn-Corrected s j a e in
    elim (Bool-cases (is_chosen j s)) [
      | inl chosen ↦
          let same =
            All-take _ 1000 (keep may_be_overdrawn s.accounts)
              (All-keep _ may_be_overdrawn s.accounts (same-All j a s.accounts keyed e)) in
          let (d, found, settled) = reconcile_each-Done j a xs s same e chosen in
          let d_b : d ≡ b = cc in (b, there, c, inl (chosen, subst IsSettled d_b settled))
      | inr other ↦ let kept = reconcile_each-other j xs s other in (b, there, c, inr (other, cc))
    ]
