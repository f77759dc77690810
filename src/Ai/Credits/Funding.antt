-- ===== src/Ai/Credits/Funding.antt =====
-- `topUp`, and the solvency of the writes that `allocate` makes.
use backend_softlogic.Base.{
  String, ◌≡◌, inl, inr, false, Option, arith, Bool-cases, Option-cases, trim_or,
}
use backend_softlogic.Base.Int.{ℤ, pos, ◌-ℤ◌, ◌≤ℤ◌, ltb_ℤ, int_laws}
use backend_softlogic.Base.Exec.{transaction}
use backend_softlogic.Base.Table.{find, All-find, All-update_found, find-key}
use backend_softlogic.Access.Roles.{Actor, is_super_admin}
use backend_softlogic.Ai.Store.{AiCreditAccount, AiStore, account_row}
use backend_softlogic.Ai.Accounts.{account_available, assert_super_admin, to_big, master_account_id}
use backend_softlogic.Ai.Credits.{
  add_allocated, add_child_allocated, receive_allocation, top_up_account, top_up,
}
use backend_softlogic.Ai.Credits.Balance.{
  available-add_allocated, available-add_child_allocated, available-receive_allocation,
}
use backend_softlogic.Ai.Credits.Solvency.{IsSolvent, AllSolvent}

IsSolvent-add_allocated :
    (x : ℤ) (a : AiCreditAccount) → pos 0 ≤ℤ x → IsSolvent a → IsSolvent (add_allocated x a)
IsSolvent-add_allocated x a h (inl free) = inl (unfold add_allocated in free)
IsSolvent-add_allocated x a h (inr cover) = inr (rw available-add_allocated (omega int_laws))

pub IsSolvent-receive_allocation :
    (x : ℤ) (p : String) (a : AiCreditAccount)
    → pos 0 ≤ℤ x
    → IsSolvent a
    → IsSolvent (receive_allocation x p a)
IsSolvent-receive_allocation x p a h (inl free) = inl (unfold receive_allocation in free)
IsSolvent-receive_allocation x p a h (inr cover) =
    inr (rw available-receive_allocation (omega int_laws))

covers : (f x : ℤ) → ltb_ℤ f x ≡ false → pos 0 ≤ℤ f -ℤ x
unfolding ◌-ℤ◌
covers f x h = ground arith

pub to_big_nonneg : (x : ℤ) → pos 0 ≤ℤ to_big x
to_big_nonneg x = ground arith

pub IsSolvent-add_child_allocated :
    (x : ℤ) (a : AiCreditAccount)
    → ltb_ℤ (account_available a) x ≡ false
    → IsSolvent (add_child_allocated x a)
IsSolvent-add_child_allocated x a h =
    inr (rw available-add_child_allocated (covers (account_available a) x h))

top_up_account-AllSolvent :
    (actor : Actor) (x : ℤ) (id : String) (s : AiStore)
    → pos 0 ≤ℤ x
    → AllSolvent s
    → AllSolvent (transaction (top_up_account actor x id) s).1
unfolding top_up_account
top_up_account-AllSolvent actor x id s nonneg h = elim (Option-cases (find id s.accounts)) [
  | inl e ↦ ground arith
  | inr (a, e) ↦
      let own = find-key id a s.accounts e in
      let next =
        All-update_found IsSolvent a.id (add_allocated x) a s.accounts h own
          (IsSolvent-add_allocated x a nonneg (All-find IsSolvent id a s.accounts h e)) in
      ground (arith, next)
]

-- After a top-up, granted or refused, every account is solvent if every one was before.
pub top_up-AllSolvent :
    (actor : Actor) (account_id : Option String) (amount : ℤ) (s : AiStore)
    → AllSolvent s
    → AllSolvent (top_up actor account_id amount s).1
unfolding top_up assert_super_admin
top_up-AllSolvent actor account_id amount s h =
    let kept =
      top_up_account-AllSolvent actor (to_big amount) (trim_or account_id master_account_id) s
        (to_big_nonneg amount) h in
    elim (Bool-cases (is_super_admin actor.role)) [
      | inl super ↦ rw super kept
      | inr plain ↦ rw plain h
    ]
