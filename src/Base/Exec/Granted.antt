-- ===== src/Base/Exec/Granted.antt =====
-- The outcomes of a run.
use mathlib.Core.Path.{◌≡◌, refl}
use mathlib.Core.Logic.{◌⊎◌, inl, inr}
use backend_softlogic.Base.Failure.{Failure}
use backend_softlogic.Base.Exec.{Result, ok, err}

pub run-cases :
    {S A : Type 0} (p : Result A × S)
    → ((a : A) × (s : S) × (p ≡ (ok a, s))) ⊎ ((e : Failure) × (s : S) × (p ≡ (err e, s)))
run-cases (ok a, s) = inl (a, s, refl)
run-cases (err e, s) = inr (e, s, refl)
