-- ===== src/Base/Exec.antt =====
-- Service methods: state and exceptions. The state comes back beside an error too, since what an
-- earlier call wrote stays written; `transaction` undoes the writes of a body that throws, as
-- `prisma.$transaction` does.
pub mod Granted
use mathlib.Core.Path.{◌≡◌, refl, subst}
use mathlib.Core.Logic.{◌⊎◌, inl, inr}
use mathlib.Core.Bool.{Bool}
use mathlib.Core.Option.{Option, none, some}
use backend_softlogic.Base.Tests.{if◌then◌else◌}
use backend_softlogic.Base.Failure.{Failure}

pub data Result {ℓ} (A : Type ℓ) : Type ℓ where
  ok : A → Result A
  err : Failure → Result A

pub Result-cases {ℓ} :
    {A : Type ℓ} (r : Result A) → ((a : A) × (r ≡ ok a)) ⊎ ((e : Failure) × (r ≡ err e))
Result-cases (ok a) = inl (a, refl)
Result-cases (err e) = inr (e, refl)

abbrev pub Exec {ℓ} : Type ℓ → Type ℓ → Type ℓ
Exec S A = S → Result A × S

module _ {ℓ} {S A : Type ℓ} where
  abbrev pub pure : A → Exec S A
  pure a s = (ok a, s)

  abbrev pub raise : Failure → Exec S A
  raise e s = (err e, s)

  abbrev pub lift : Result A → Exec S A
  lift r s = (r, s)

  abbrev pub gets : (S → A) → Exec S A
  gets f s = (ok (f s), s)

  abbrev pub or_raise : Option A → Failure → Exec S A
  or_raise none e s = (err e, s)
  or_raise (some a) e s = (ok a, s)

  abbrev pub settle : S → Result A × S → Result A × S
  settle before (ok a, after) = (ok a, after)
  settle before (err e, after) = (err e, before)

  abbrev pub transaction : Exec S A → Exec S A
  transaction m s = settle s (m s)

module _ {S : Type 0} where
  abbrev pub modify : (S → S) → Exec S Unit
  modify f s = (ok tt, f s)

  abbrev pub raise_if : Bool → Failure → Exec S Unit
  raise_if c e s = (if c then err e else ok tt, s)

module _ {ℓ} {S A B : Type ℓ} where
  abbrev pub continue : (A → Exec S B) → Result A × S → Result B × S
  continue f (ok a, s) = f a s
  continue f (err e, s) = (err e, s)

  infixl 10 ◌>>=◌ ◌>>◌
  abbrev pub ◌>>=◌ : Exec S A → (A → Exec S B) → Exec S B
  ◌>>=◌ m f s = continue f (m s)

  abbrev pub ◌>>◌ : Exec S A → Exec S B → Exec S B
  m >> n = m >>= λ _. n

-- `try { … } catch (error) { … }`
module _ {ℓ} {S A : Type ℓ} where
  abbrev pub recover : (Failure → Exec S A) → Result A × S → Result A × S
  recover handler (ok a, s) = (ok a, s)
  recover handler (err e, s) = handler e s

  abbrev pub try_catch : Exec S A → (Failure → Exec S A) → Exec S A
  try_catch m handler s = recover handler (m s)

module _ {ℓ} {S A B : Type ℓ} (f : A → Exec S B) {b : B} {s' : S} where
  continue-ok :
      (p : Result A × S)
      → continue f p ≡ (ok b, s')
      → (a : A) × (s₁ : S) × (p ≡ (ok a, s₁)) × (f a s₁ ≡ (ok b, s'))
  continue-ok (ok a, s₁) h = (a, s₁, refl, h)
  continue-ok (err e, s₁) h = absurd (cc)

  -- A block that returns has returned at each step.
  pub >>=-eq-ok :
      (m : Exec S A) (s : S)
      → (m >>= f) s ≡ (ok b, s')
      → (a : A) × (s₁ : S) × (m s ≡ (ok a, s₁)) × (f a s₁ ≡ (ok b, s'))
  >>=-eq-ok m s h = continue-ok (m s) h

module _ {ℓ} {S A : Type ℓ} (s : S) where
  settle-ok : (p : Result A × S) {a : A} {s' : S} → settle s p ≡ (ok a, s') → p ≡ (ok a, s')
  settle-ok (ok a, s') h = h
  settle-ok (err e, s') h = absurd (cc)

  -- A transaction that returns is its body.
  pub transaction-eq-ok :
      (m : Exec S A) {a : A} {s' : S} → transaction m s ≡ (ok a, s') → m s ≡ (ok a, s')
  transaction-eq-ok m h = settle-ok (m s) h

-- What holds of the outcome of one run holds of an equal outcome.
pub ok_transport {ℓ κ} :
    {S A : Type ℓ} (P : A → S → Type κ) {a a' : A} {s s' : S} {r : Result A × S}
    → r ≡ (ok a, s)
    → r ≡ (ok a', s')
    → P a s
    → P a' s'
ok_transport P {a} {a'} {s} {s'} p q h =
    let x : a ≡ a' = cc in let y : s ≡ s' = cc in subst (λ t. P a' t) y (subst (λ t. P t s) x h)
