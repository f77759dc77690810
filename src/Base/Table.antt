-- ===== src/Base/Table.antt =====
-- A database table: rows with a primary key. `find` is `findUnique`, `update` writes the row of one
-- key, and the sums of a column follow each write.
pub mod Columns
pub mod Queries
use mathlib.Core.Path.{◌≡◌, refl, ap, subst}
use mathlib.Core.Option
use mathlib.Core.Bool.{Bool, true}
use mathlib.Core.Option.{Option, none, some}
use mathlib.Core.List.{List, [], ◌∷◌}
use native.Mathlib.Omega.{arith}
use Prim.Native.String.{String}
use text.Mathlib.Text.{◌==◌}
use text.Mathlib.TextEquality.{eq_iff}
use mathlib.Core.Logic.{◌≢◌, inl, inr}
use text.Mathlib.TextPositions.{eq_refl}
use backend_softlogic.Base.Tests.{if◌then◌else◌, Bool-cases}
use backend_softlogic.Base.Lists.{All}
use backend_softlogic.Base.Int.{ℤ, pos, ◌+ℤ◌, int_laws}

pub record Row {ℓ} (A : Type ℓ) : Type ℓ where
  pub key : A → String

module _ {ℓ} {A : Type ℓ} ⦃r : Row A⦄ where
  unfoldable pub find : String → List A → Option A
  find k [] = none
  find k (a ∷ t) = if r.key a == k then some a else find k t

  unfoldable pub update : String → (A → A) → List A → List A
  update k f [] = []
  update k f (a ∷ t) = if r.key a == k then f a ∷ t else a ∷ update k f t

  -- A row that is found has the key that was asked for.
  pub key-find : (k : String) (a : A) (t : List A) → find k t ≡ some a → r.key a ≡ k
  unfolding find
  key-find k a [] h = ground arith
  key-find k a (x ∷ t) h = ground (arith, eq_iff (r.key x) k, key-find k a t)

  pub find-update :
      (k j : String) (f : A → A) (t : List A)
      → ((a : A) → r.key (f a) ≡ r.key a)
      → find j (update k f t) ≡ (if k == j then Option.map f (find j t) else find j t)
  unfolding find update
  find-update k j f [] h = ground arith
  find-update k j f (a ∷ t) h = ground (
    arith,
    h a,
    eq_iff (r.key a) k,
    eq_iff (r.key a) j,
    eq_iff (r.key (f a)) j,
    eq_iff k j,
    find-update k j f t h,
  )

  unfoldable pub sum : (A → ℤ) → List A → ℤ
  sum g [] = pos 0
  sum g (a ∷ t) = g a +ℤ sum g t

  -- A write to a row that is there changes a sum by what it changes in that row.
  pub sum-update :
      (g : A → ℤ) (k : String) (f : A → A) (a : A) (t : List A)
      → find k t ≡ some a
      → sum g (update k f t) +ℤ g a ≡ sum g t +ℤ g (f a)
  unfolding find update sum
  sum-update g k f a [] h = ground arith
  sum-update g k f a (x ∷ t) h = grind (int_laws, sum-update g k f a t)

  pub All-find :
      (P : A → Type 0) (k : String) (a : A) (t : List A) → All P t → find k t ≡ some a → P a
  unfolding find
  All-find P k a [] h e = absurd (cc)
  All-find P k a (x ∷ t) h e = elim (Bool-cases (r.key x == k)) [
    | inl t₁ ↦ let same : x ≡ a = ground arith in subst P same h.0
    | inr f₁ ↦ All-find P k a t h.1 (ground arith)
  ]

  pub All-update :
      (P : A → Type 0) (k : String) (f : A → A) (t : List A)
      → All P t
      → ((a : A) → find k t ≡ some a → P a → P (f a))
      → All P (update k f t)
  unfolding find update
  All-update P k f [] h step = tt
  All-update P k f (x ∷ t) h step = elim (Bool-cases (r.key x == k)) [
    | inl here ↦ rw here (step x (rw here) h.0, h.1)
    | inr there ↦ rw there (h.0, All-update P k f t h.1 (λ a e. step a (rw there e)))
  ]

  -- Two writes to one row are one; a write that changes nothing in the row is none.
  pub update-update :
      (k : String) (f g : A → A) (t : List A)
      → ((a : A) → r.key (f a) ≡ r.key a)
      → update k g (update k f t) ≡ update k (λ a. g (f a)) t
  unfolding update
  update-update k f g [] h = refl
  update-update k f g (x ∷ t) h = ground (arith, h x, update-update k f g t h)

  pub update_id :
      (k : String) (f : A → A) (t : List A)
      → ((a : A) → find k t ≡ some a → f a ≡ a)
      → update k f t ≡ t
  unfolding find update
  update_id k f [] h = refl
  update_id k f (x ∷ t) h = elim (Bool-cases (r.key x == k)) [
    | inl here ↦ rw here (ap (λ y. y ∷ t) (h x (rw here)))
    | inr there ↦ rw there (ap (λ y. x ∷ y) (update_id k f t (λ a e. h a (rw there e))))
  ]

  pub find-update_self :
      (k : String) (f : A → A) (a : A) (t : List A)
      → ((x : A) → r.key (f x) ≡ r.key x)
      → find k t ≡ some a
      → find k (update k f t) ≡ some (f a)
  find-update_self k f a t keeps e = rw (find-update k k f t keeps) (rw (eq_refl k, e))

  pub find-update_ne :
      (k j : String) (f : A → A) (t : List A)
      → ((x : A) → r.key (f x) ≡ r.key x)
      → k ≢ j
      → find j (update k f t) ≡ find j t
  find-update_ne k j f t keeps n = rw (find-update k j f t keeps) (ground (arith, eq_iff k j))

  pub All-update_found :
      (P : A → Type 0) (k : String) (f : A → A) (a : A) (t : List A)
      → All P t
      → find k t ≡ some a
      → P (f a)
      → All P (update k f t)
  All-update_found P k f a t h e p =
      All-update P k f t h (λ x e' _. let same : a ≡ x = cc in subst (λ y. P (f y)) same p)

  -- A row that was found is found by its own key.
  pub find-key : (k : String) (a : A) (t : List A) → find k t ≡ some a → find (r.key a) t ≡ some a
  find-key k a t e = rw (key-find k a t e) e

-- `updateMany`
module _ {ℓ} {A : Type ℓ} where
  abbrev pub update_where : (A → Bool) → (A → A) → List A → List A
  update_where p f [] = []
  update_where p f (a ∷ t) = (if p a then f a else a) ∷ update_where p f t

  pub All-update_where :
      (P : A → Type 0) (p : A → Bool) (f : A → A) (t : List A)
      → All P t
      → ((a : A) → p a ≡ true → P a → P (f a))
      → All P (update_where p f t)
  All-update_where P p f [] h step = tt
  All-update_where P p f (a ∷ t) h step = elim (Bool-cases (p a)) [
    | inl e ↦ rw e (step a e h.0, All-update_where P p f t h.1 step)
    | inr e ↦ rw e (h.0, All-update_where P p f t h.1 step)
  ]
