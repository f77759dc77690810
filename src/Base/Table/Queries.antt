-- ===== src/Base/Table/Queries.antt =====
-- Queries and counts of a table under a new row and under writes.
use Prim.Native.Nat.{ℕ, ◌+◌}
use mathlib.Core.Path.{◌≡◌, refl, subst}
use mathlib.Core.Logic.{inl, inr}
use mathlib.Core.Bool.{Bool, true, false}
use mathlib.Core.Option.{none, some}
use mathlib.Core.List.{List, [], ◌∷◌, ◌++◌}
use Prim.Native.String.{String}
use native.Mathlib.Omega.{arith}
use text.Mathlib.Text.{◌==◌}
use text.Mathlib.TextEquality.{eq_iff}
use text.Mathlib.TextPositions.{eq_refl}
use backend_softlogic.Base.Tests.{if◌then◌else◌, Bool-cases}
use backend_softlogic.Base.Lists.{count, first}
use backend_softlogic.Base.Table.{Row, find, update, update_where}
use backend_softlogic.Base.Table.Columns.{IsKeyed, find-first}

-- 1 or 0
abbrev pub bit : Bool → ℕ
bit b = if b then 1 else 0

module _ {ℓ} {A : Type ℓ} where
  pub count-append_one :
      (p : A → Bool) (a : A) (t : List A) → count p (t ++ a ∷ []) ≡ count p t + bit (p a)
  count-append_one p a [] = omega arith
  count-append_one p a (x ∷ t) = omega (arith, count-append_one p a t)

  pub first-append_one :
      (p : A → Bool) (a : A) (t : List A)
      → first p t ≡ none
      → p a ≡ true
      → first p (t ++ a ∷ []) ≡ some a
  first-append_one p a [] h e = rw e
  first-append_one p a (x ∷ t) h e = ground (arith, first-append_one p a t)

  -- No row passes a test that every written row fails and every row that was not written too.
  pub count-update_where_none :
      (q p : A → Bool) (f : A → A) (t : List A)
      → ((a : A) → q (if p a then f a else a) ≡ false)
      → count q (update_where p f t) ≡ 0
  count-update_where_none q p f [] h = refl
  count-update_where_none q p f (a ∷ t) h =
      rw (h a) (ground (arith, count-update_where_none q p f t h))

  pub count-same :
      (q : A → Bool) (f : A → A) (p : A → Bool) (t : List A)
      → ((a : A) → p a ≡ true → q (f a) ≡ q a)
      → count q (update_where p f t) ≡ count q t
  count-same q f p [] h = refl
  count-same q f p (a ∷ t) h = elim (Bool-cases (p a)) [
    | inl e ↦ rw (e, h a e) (ground (arith, count-same q f p t h))
    | inr e ↦ rw e (ground (arith, count-same q f p t h))
  ]

module _ {ℓ} {A : Type ℓ} ⦃r : Row A⦄ where
  pub count-update :
      (p : A → Bool) (k : String) (f : A → A) (a : A) (t : List A)
      → find k t ≡ some a
      → count p (update k f t) + bit (p a) ≡ count p t + bit (p (f a))
  unfolding find update
  count-update p k f a [] h = absurd (cc)
  count-update p k f a (x ∷ t) h = elim (Bool-cases (r.key x == k)) [
    | inl e ↦ let same : x ≡ a = ground arith in rw (e, same) (omega arith)
    | inr e ↦ rw e (omega (arith, count-update p k f a t (ground arith)))
  ]

  -- The first row of a query, written so that it still passes, is still the first.
  pub first-update_self :
      (p : A → Bool) (f : A → A) (a : A) (t : List A)
      → IsKeyed t
      → first p t ≡ some a
      → p (f a) ≡ true
      → first p (update (r.key a) f t) ≡ some (f a)
  unfolding find update
  first-update_self p f a [] u h e = absurd (cc)
  first-update_self p f a (x ∷ t) u h e = elim (Bool-cases (p x)) [
    | inl here ↦ let same : x ≡ a = ground arith in rw same (rw (eq_refl (r.key a), e))
    | inr there ↦
        let rest : first p t ≡ some a = ground arith in
        elim (Bool-cases (r.key x == r.key a)) [
          | inl same ↦
              let q : r.key x ≡ r.key a = (eq_iff (r.key x) (r.key a)).0 same in
              let found = find-first p a t u.1 rest in
              let gone : find (r.key a) t ≡ none = subst (λ k. find k t ≡ none) q u.0 in absurd (cc)
          | inr other ↦ rw (other, there) (first-update_self p f a t u.1 rest e)
        ]
  ]

  pub count-update_same :
      (p : A → Bool) (k : String) (f : A → A) (t : List A)
      → ((a : A) → p (f a) ≡ p a)
      → count p (update k f t) ≡ count p t
  unfolding update
  count-update_same p k f [] h = refl
  count-update_same p k f (x ∷ t) h = ground (arith, h x, count-update_same p k f t h)
