-- ===== src/Base/Keeps.antt =====
-- Invariants of service methods, one rule for each way to build a method.
use mathlib.Core.Bool.{Bool, true, false}
use mathlib.Core.Option.{Option, none, some}
use backend_softlogic.Base.Tests.{if◌then◌else◌}
use backend_softlogic.Base.Failure.{Failure}
use backend_softlogic.Base.Exec.{
  Result, ok, err, Exec, pure, raise, lift, gets, or_raise, raise_if, settle, transaction, continue,
  modify, recover, try_catch, ◌>>=◌,
}

-- `m` keeps `P`, whether it returns or raises.
pub record Keeps {S A : Type 0} (P : S → Type 0) (m : Exec S A) : Type 0 where
  pub at : (s : S) → P s → P (m s).1

module _ {S A : Type 0} (P : S → Type 0) where
  or_raise_state : (o : Option A) (e : Failure) (s : S) → P s → P (or_raise o e s).1
  or_raise_state none e s h = h
  or_raise_state (some a) e s h = h

  settle_state : (s : S) (r : Result A) (s' : S) → P s → P s' → P (settle s (r, s')).1
  settle_state s (ok a) s' h h' = h'
  settle_state s (err e) s' h h' = h

module _ {S A : Type 0} {P : S → Type 0} where
  pub Keeps-pure : (a : A) → Keeps P (pure a)
  Keeps-pure a = record { at = λ s h. h }

  pub Keeps-raise : (e : Failure) → Keeps P (raise {A = A} e)
  Keeps-raise e = record { at = λ s h. h }

  pub Keeps-lift : (r : Result A) → Keeps P (lift r)
  Keeps-lift r = record { at = λ s h. h }

  pub Keeps-gets : (f : S → A) → Keeps P (gets f)
  Keeps-gets f = record { at = λ s h. h }

  pub Keeps-or_raise : (o : Option A) (e : Failure) → Keeps P (or_raise o e)
  Keeps-or_raise o e = record { at = or_raise_state P o e }

  pub Keeps-if : (b : Bool) (m n : Exec S A) → Keeps P m → Keeps P n → Keeps P (if b then m else n)
  Keeps-if true m n km kn = km
  Keeps-if false m n km kn = kn

  pub Keeps-transaction : (m : Exec S A) → Keeps P m → Keeps P (transaction m)
  Keeps-transaction m km = record {
    at = λ s h. let (r, s') = m s in settle_state P s r s' h (km.at s h);
  }

module _ {S : Type 0} {P : S → Type 0} where
  pub Keeps-raise_if : (b : Bool) (e : Failure) → Keeps P (raise_if b e)
  Keeps-raise_if b e = record { at = λ s h. h }

module _ {S A B : Type 0} {P : S → Type 0} where
  continue_state :
      (f : A → Exec S B)
      → ((a : A) → Keeps P (f a))
      → (r : Result A) (s : S) → P s
      → P (continue f (r, s)).1
  continue_state f kf (ok a) s h = (kf a).at s h
  continue_state f kf (err e) s h = h

  pub Keeps-bind :
      (m : Exec S A) (f : A → Exec S B) → Keeps P m → ((a : A) → Keeps P (f a)) → Keeps P (m >>= f)
  Keeps-bind m f km kf = record {
    at = λ s h. let (r, s') = m s in continue_state f kf r s' (km.at s h);
  }

module _ {S : Type 0} {P : S → Type 0} where
  pub Keeps-modify : (f : S → S) → ((s : S) → P s → P (f s)) → Keeps P (modify f)
  Keeps-modify f keeps = record { at = λ s h. keeps s h }

module _ {S A : Type 0} {P : S → Type 0} where
  recover_state :
      (handler : Failure → Exec S A)
      → ((e : Failure) → Keeps P (handler e))
      → (r : Result A) (s : S) → P s
      → P (recover handler (r, s)).1
  recover_state handler kh (ok a) s h = h
  recover_state handler kh (err e) s h = (kh e).at s h

  pub Keeps-try_catch :
      (m : Exec S A) (handler : Failure → Exec S A)
      → Keeps P m
      → ((e : Failure) → Keeps P (handler e))
      → Keeps P (try_catch m handler)
  Keeps-try_catch m handler km kh = record {
    at = λ s h. let (r, s') = m s in recover_state handler kh r s' (km.at s h);
  }

pub ruleset keeps_rules = (
  Keeps-pure, Keeps-raise, Keeps-lift, Keeps-gets, Keeps-or_raise, Keeps-if, Keeps-raise_if,
  Keeps-bind, Keeps-transaction, Keeps-modify, Keeps-try_catch,
)
