-- ===== src/Ai/Credits/Balance.antt =====
-- What each write does to the amount that is available.
use backend_softlogic.Base.{◌≡◌, String}
use backend_softlogic.Base.Int.{ℤ, ◌+ℤ◌, ◌-ℤ◌, int_laws}
use backend_softlogic.Ai.Store.{AiCreditAccount}
use backend_softlogic.Ai.Accounts.{account_available}
use backend_softlogic.Ai.Credits.{
  add_allocated, add_child_allocated, receive_allocation, add_reserved, release_reserved,
  commit_charge, subtract_used,
}

pub available-add_allocated :
    (x : ℤ) (a : AiCreditAccount) → account_available (add_allocated x a) ≡ account_available a +ℤ x
unfolding account_available add_allocated
available-add_allocated x a = omega int_laws

pub available-add_child_allocated :
    (x : ℤ) (a : AiCreditAccount)
    → account_available (add_child_allocated x a) ≡ account_available a -ℤ x
unfolding account_available add_child_allocated
available-add_child_allocated x a = omega int_laws

pub available-receive_allocation :
    (x : ℤ) (p : String) (a : AiCreditAccount)
    → account_available (receive_allocation x p a) ≡ account_available a +ℤ x
unfolding account_available receive_allocation
available-receive_allocation x p a = omega int_laws

pub available-add_reserved :
    (x : ℤ) (a : AiCreditAccount) → account_available (add_reserved x a) ≡ account_available a -ℤ x
unfolding account_available add_reserved
available-add_reserved x a = omega int_laws

pub available-release_reserved :
    (x : ℤ) (a : AiCreditAccount)
    → account_available (release_reserved x a) ≡ account_available a +ℤ x
unfolding account_available release_reserved
available-release_reserved x a = omega int_laws

pub available-commit_charge :
    (r c : ℤ) (a : AiCreditAccount)
    → account_available (commit_charge r c a) ≡ account_available a +ℤ r -ℤ c
unfolding account_available commit_charge
available-commit_charge r c a = omega int_laws

pub available-subtract_used :
    (x : ℤ) (a : AiCreditAccount) → account_available (subtract_used x a) ≡ account_available a +ℤ x
unfolding account_available subtract_used
available-subtract_used x a = omega int_laws
