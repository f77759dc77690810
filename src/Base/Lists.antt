-- ===== src/Base/Lists.antt =====
-- Lists measured by native numbers, and the array methods `some`, `every`, `filter`, `includes`
-- that the source calls.
use Prim.Native.Nat.{ℕ, zero, suc, ◌+◌}
use Prim.Native.String.{String}
use mathlib.Core.Path.{◌≡◌, refl}
use mathlib.Core.Bool.{Bool, true, false, ◌&&◌, ◌||◌}
use mathlib.Core.List.{List, [], ◌∷◌, ◌++◌}
use mathlib.Core.Option.{Option, none, some}
use native.Mathlib.Omega.{arith}
use text.Mathlib.Text.{◌==◌}
use backend_softlogic.Base.Tests.{if◌then◌else◌}

module _ {ℓ} {A : Type ℓ} where
  abbrev pub length : List A → ℕ
  length [] = 0
  length (x ∷ xs) = suc (length xs)

  abbrev pub any : (A → Bool) → List A → Bool
  any p [] = false
  any p (x ∷ xs) = p x || any p xs

  abbrev pub all : (A → Bool) → List A → Bool
  all p [] = true
  all p (x ∷ xs) = p x && all p xs

  -- `xs.filter(p)`
  abbrev pub keep : (A → Bool) → List A → List A
  keep p [] = []
  keep p (x ∷ xs) = let rest = keep p xs in if p x then x ∷ rest else rest

  abbrev pub take : ℕ → List A → List A
  take zero xs = []
  take (suc n) [] = []
  take (suc n) (x ∷ xs) = x ∷ take n xs

  -- the number of entries that pass a test
  abbrev pub count : (A → Bool) → List A → ℕ
  count p [] = 0
  count p (x ∷ xs) = (if p x then 1 else 0) + count p xs

  -- `xs.find(p)`
  abbrev pub first : (A → Bool) → List A → Option A
  first p [] = none
  first p (x ∷ xs) = let rest = first p xs in if p x then some x else rest

  abbrev pub All {κ} : (A → Type κ) → List A → Type κ
  All P [] = Unit
  All P (x ∷ xs) = P x × All P xs

-- `xs.includes(a)` on texts
abbrev pub includes : String → List String → Bool
includes a [] = false
includes a (x ∷ xs) = (x == a) || includes a xs

pub includes-append :
    (a : String) (xs ys : List String) → includes a (xs ++ ys) ≡ (includes a xs || includes a ys)
includes-append a [] ys = refl
includes-append a (x ∷ xs) ys = ground (arith, includes-append a xs ys)

pub first_holds {ℓ} :
    {A : Type ℓ} (p : A → Bool) (a : A) (xs : List A) → first p xs ≡ some a → p a ≡ true
first_holds p a [] h = absurd (cc)
first_holds p a (x ∷ xs) h = ground (arith, first_holds p a xs)

pub first-none {ℓ} : {A : Type ℓ} (p : A → Bool) (xs : List A) → count p xs ≡ 0 → first p xs ≡ none
first-none p [] h = refl
first-none p (x ∷ xs) h = ground (arith, first-none p xs)
