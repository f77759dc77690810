-- ===== src/Base/Table/Columns.antt =====
-- Columns, keys and queries of a table under a new row and under a write.
use mathlib.Core.Path.{◌≡◌, refl, sym, ap, subst, ◌∙◌}
use mathlib.Core.Logic.{◌≢◌, inl, inr}
use mathlib.Core.Bool.{Bool, false}
use mathlib.Core.Option
use mathlib.Core.Option.{none, some}
use mathlib.Core.List.{List, [], ◌∷◌, ◌++◌}
use Prim.Native.String.{String}
use text.Mathlib.Text.{◌==◌}
use backend_softlogic.Base.Tests.{if◌then◌else◌, Bool-cases, Option-cases, is_some}
use text.Mathlib.TextEquality.{eq_iff}
use text.Mathlib.TextPositions.{eq_refl}
use backend_softlogic.Base.Lists.{All, first, first_holds}
use backend_softlogic.Base.Int.{ℤ, ◌+ℤ◌, +ℤ_assoc, +ℤ-zero, zero-+ℤ}
use native.Mathlib.Omega.{arith}
use backend_softlogic.Base.Table.{Row, find, update, sum, find-update}

module _ {ℓ} {A : Type ℓ} where
  pub All-append_one : (P : A → Type 0) (a : A) (t : List A) → All P t → P a → All P (t ++ a ∷ [])
  All-append_one P a [] h p = (p, tt)
  All-append_one P a (x ∷ t) h p = (h.0, All-append_one P a t h.1 p)

module _ {ℓ} {A : Type ℓ} ⦃r : Row A⦄ where
  pub sum-append_one : (g : A → ℤ) (a : A) (t : List A) → sum g (t ++ a ∷ []) ≡ sum g t +ℤ g a
  unfolding sum
  sum-append_one g a [] = +ℤ-zero (g a) ∙ sym (zero-+ℤ (g a))
  sum-append_one g a (x ∷ t) =
      ap (λ z. g x +ℤ z) (sum-append_one g a t) ∙ sym (+ℤ_assoc (g x) (sum g t) (g a))

  pub sum-update_same :
      (g : A → ℤ) (k : String) (f : A → A) (t : List A)
      → ((a : A) → g (f a) ≡ g a)
      → sum g (update k f t) ≡ sum g t
  unfolding update sum
  sum-update_same g k f [] h = refl
  sum-update_same g k f (x ∷ t) h = ground (arith, h x, sum-update_same g k f t h)

  -- No key occurs twice, as a primary key requires.
  abbrev pub IsKeyed : List A → Type ℓ
  IsKeyed [] = Unit
  IsKeyed (a ∷ t) = (find (r.key a) t ≡ none) × IsKeyed t

  first-find-none :
      (p : A → Bool) (a : A) (t : List A) → first p t ≡ some a → find (r.key a) t ≢ none
  unfolding find
  first-find-none p a [] h n = cc
  first-find-none p a (x ∷ t) h n =
      ground (arith, eq_iff (r.key x) (r.key a), first-find-none p a t)

  -- A row that a query returns is the row of its key.
  pub find-first :
      (p : A → Bool) (a : A) (t : List A)
      → IsKeyed t
      → first p t ≡ some a
      → find (r.key a) t ≡ some a
  unfolding find
  find-first p a [] u h = absurd (cc)
  find-first p a (x ∷ t) u h = elim (Bool-cases (p x)) [
    | inl here ↦
        let same : x ≡ a = ground arith in
        subst (λ y. find (r.key y) (x ∷ t) ≡ some y) same (rw (eq_refl (r.key x)))
    | inr there ↦
        let rest : first p t ≡ some a = ground arith in
        let later = find-first p a t u.1 rest in
        elim (Bool-cases (r.key x == r.key a)) [
          | inl same ↦ absurd (
              first-find-none p a t rest
                (subst (λ k. find k t ≡ none) ((eq_iff (r.key x) (r.key a)).0 same) u.0))
          | inr other ↦ rw other later
        ]
  ]

  pub find-append_one :
      (k : String) (a : A) (t : List A)
      → find k (t ++ a ∷ [])
        ≡ (if is_some (find k t) then find k t else if r.key a == k then some a else none)
  unfolding find
  find-append_one k a [] = ground arith
  find-append_one k a (x ∷ t) = ground (arith, find-append_one k a t)

  pub find-append_ne :
      (k : String) (a : A) (t : List A) → r.key a ≢ k → find k (t ++ a ∷ []) ≡ find k t
  find-append_ne k a t ne = elim (Bool-cases (r.key a == k)) [
    | inl same ↦ absurd (ne ((eq_iff (r.key a) k).0 same))
    | inr apart ↦ find-append_one k a t ∙ elim (Option-cases (find k t)) [
      | inl gone ↦ rw (gone, apart) refl
      | inr (x, here) ↦ rw here refl
    ]
  ]

  pub IsKeyed-append_one :
      (a : A) (t : List A) → find (r.key a) t ≡ none → IsKeyed t → IsKeyed (t ++ a ∷ [])
  unfolding find
  IsKeyed-append_one a [] n u = (refl, tt)
  IsKeyed-append_one a (x ∷ t) n u = (
    ground (
      arith,
      find-append_one (r.key x) a t,
      eq_iff (r.key a) (r.key x),
      eq_iff (r.key x) (r.key a),
    ),
    IsKeyed-append_one a t (ground arith) u.1,
  )

  find-update-none :
      (k j : String) (f : A → A) (t : List A)
      → ((a : A) → r.key (f a) ≡ r.key a)
      → find j t ≡ none
      → find j (update k f t) ≡ none
  find-update-none k j f t keeps n = rw (find-update k j f t keeps) (ground arith)

  pub IsKeyed-update :
      (k : String) (f : A → A) (t : List A)
      → ((a : A) → r.key (f a) ≡ r.key a)
      → IsKeyed t
      → IsKeyed (update k f t)
  unfolding update
  IsKeyed-update k f [] keeps u = tt
  IsKeyed-update k f (x ∷ t) keeps u = elim (Bool-cases (r.key x == k)) [
    | inl here ↦ rw here (subst (λ j. find j t ≡ none) (sym (keeps x)) u.0, u.1)
    | inr there ↦
        rw there (find-update-none k (r.key x) f t keeps u.0, IsKeyed-update k f t keeps u.1)
  ]

  -- A query that no written row passes does not return the row that was written.
  pub first-update-other :
      (p : A → Bool) (k : String) (f : A → A) (a : A) (t : List A)
      → ((x : A) → r.key (f x) ≡ r.key x)
      → ((x : A) → p (f x) ≡ false)
      → IsKeyed t
      → first p (update k f t) ≡ some a
      → r.key a ≢ k
  first-update-other p k f a t keeps closed u h q =
      let holds = first_holds p a (update k f t) h in
      let found = find-first p a (update k f t) (IsKeyed-update k f t keeps u) h in
      let at_k : find k (update k f t) ≡ some a =
        subst (λ j. find j (update k f t) ≡ some a) q found in
      let mapped : find k (update k f t) ≡ (if k == k then Option.map f (find k t) else find k t) =
        find-update k k f t keeps in
      elim (Option-cases (find k t)) [
        | inl e ↦ ground (arith, eq_refl k)
        | inr (x, e) ↦ let out = closed x in ground (arith, eq_refl k)
      ]
