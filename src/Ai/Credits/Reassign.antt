-- ===== src/Ai/Credits/Reassign.antt =====
-- `setAllocation` for a user whose account hangs under another parent. The resolution of the target
-- moves the account under the source before the transaction looks for a change of parent.
use backend_softlogic.Base.{
  String, ◌≡◌, ◌≢◌, refl, sym, ap, ◌∙◌, ◌⊎◌, inl, inr, true, none, some, ◌==◌, arith, eq_iff,
  Bool-cases, Option-cases, same_text, same_text_iff,
}
use backend_softlogic.Base.Int.{ℤ, ◌-ℤ◌}
use backend_softlogic.Base.Exec.{Result, Result-cases, ok, transaction}
use backend_softlogic.Base.Table.{find, update, find-key, key-find, find-update_ne}
use backend_softlogic.Base.Table.Columns.{IsKeyed}
use backend_softlogic.Access.Roles.{Actor}
use backend_softlogic.Access.Directory.{Directory}
use backend_softlogic.Ai.Store.{AiCreditScope, AiCreditAccount, AiStore, account_row}
use backend_softlogic.Ai.Accounts.{
  Target, get_managed_account, resolve_source_account_for_target, resolve_target_account, to_big,
}
use backend_softlogic.Ai.Accounts.Placement.{resolve_target_account-IsPlaced}
use backend_softlogic.Ai.Credits.{
  add_child_allocated, set_allocated, set_target_allocation, set_allocation,
}

module _ (actor : Actor) (x : ℤ) (a b : AiCreditAccount) (s : AiStore)
    (found : find b.id s.accounts ≡ some b) (parent : b.parent_account_id ≡ some a.id) where
  abbrev reassigned : AiStore
  reassigned = (transaction (set_target_allocation actor x a.id b.id) s).1

  -- Of an account that stands under the source nothing but its own row and the source's is written.
  same_parent-cases :
      find a.id s.accounts ≡ some a
      → (reassigned.accounts ≡ s.accounts)
        ⊎ (reassigned.accounts
            ≡ update b.id
                (set_allocated x a.id)
                (update a.id (add_child_allocated (x -ℤ b.allocated_tokens)) s.accounts))
  unfolding set_target_allocation
  same_parent-cases source =
      let under : same_text b.parent_account_id (some a.id) ≡ true =
        (same_text_iff b.parent_account_id (some a.id)).1 parent in
      let mid = update a.id (add_child_allocated (x -ℤ b.allocated_tokens)) s.accounts in
      elim (Option-cases (find b.id mid)) [ inl e ↦ ground arith | inr (c, e) ↦ ground arith ]

  same_parent-id :
      (c : AiCreditAccount)
      → find a.id s.accounts ≡ some a
      → (transaction (set_target_allocation actor x a.id b.id) s).0 ≡ ok c
      → c.id ≡ b.id
  unfolding set_target_allocation set_allocated
  same_parent-id c source h =
      let under : same_text b.parent_account_id (some a.id) ≡ true =
        (same_text_iff b.parent_account_id (some a.id)).1 parent in
      let mid = update a.id (add_child_allocated (x -ℤ b.allocated_tokens)) s.accounts in
      elim (Option-cases (find b.id mid)) [
        | inl e ↦ ground arith
        | inr (d, e) ↦ ground (arith, key-find b.id d mid e)
      ]

  same_parent-others :
      (k : String)
      → find a.id s.accounts ≡ some a
      → k ≢ a.id
      → k ≢ b.id
      → find k reassigned.accounts ≡ find k s.accounts
  same_parent-others k source na nb =
      let child = add_child_allocated (x -ℤ b.allocated_tokens) in
      elim (same_parent-cases source) [
        | inl e ↦ rw e
        | inr e ↦ rw e (
            find-update_ne b.id k (set_allocated x a.id) (update a.id child s.accounts)
              (λ y. unfold set_allocated in refl) (λ q. nb (sym q))
            ∙ find-update_ne a.id k child s.accounts (λ y. unfold add_child_allocated in refl)
                (λ q. na (sym q)))
      ]

get_managed_account-ok :
    (dir : Directory) (actor : Actor) (id : String) (s s' : AiStore) (a : AiCreditAccount)
    → get_managed_account dir actor id s ≡ (ok a, s')
    → (s' ≡ s) × (find id s.accounts ≡ some a)
unfolding get_managed_account
get_managed_account-ok dir actor id s s' a h = elim (Option-cases (find id s.accounts)) [
  | inl e ↦ absurd (ground arith)
  | inr (b, e) ↦ (ground arith, ground arith)
]

module _ (dir : Directory) (actor : Actor) (source_id : String) (target : Target) (x : ℤ)
    (new_source new_target : String) (s s' : AiStore) (c : AiCreditAccount)
    (h : set_allocation dir actor (some source_id) target x new_source new_target s
      ≡ (ok c, s')) where
  -- A call that returns has found its source, resolved its target and run its transaction.
  set_allocation-steps :
      (a b : AiCreditAccount) × (t : AiStore) × (find source_id s.accounts ≡ some a)
      × (resolve_target_account dir actor target a.id new_target s ≡ (ok b, t))
      × (a.id ≢ b.id)
      × (transaction (set_target_allocation actor (to_big x) a.id b.id) t ≡ (ok c, s'))
  unfolding set_allocation resolve_source_account_for_target
  set_allocation-steps =
      let src = get_managed_account dir actor source_id s in
      elim (Result-cases src.0) [
        | inl (a, ea) ↦
            let whole : src ≡ (ok a, src.1) = λ i. (ea i, src.1) in
            let (same, fa) = get_managed_account-ok dir actor source_id s src.1 a whole in
            let tgt = resolve_target_account dir actor target a.id new_target s in
            elim (Result-cases tgt.0) [
              | inl (b, eb) ↦
                  let placed : tgt ≡ (ok b, tgt.1) = λ i. (eb i, tgt.1) in
                  elim (Bool-cases (a.id == b.id)) [
                    | inl equal ↦ absurd (ground arith)
                    | inr other ↦
                        (a, b, tgt.1, fa, placed, ground (arith, eq_iff a.id b.id), ground arith)
                  ]
              | inr (f, eb) ↦ absurd (ground arith)
            ]
        | inr (f, ea) ↦ absurd (ground arith)
      ]

-- When `setAllocation` for a user, from a source account that the request names, returns, then every
-- account but that source and the user's own is as it was before. In particular a third account under which the user's account stood before keeps the user's credits
-- in its child allocations. (No two accounts have one id, and the id of a new account is fresh.)
pub set_allocation_user-others :
    (dir : Directory) (actor : Actor) (source_id : String) (target : Target) (x : ℤ)
    (new_source new_target : String) (s s' : AiStore) (c : AiCreditAccount)
    → target.scope ≡ AiCreditScope.user
    → IsKeyed s.accounts
    → find new_target s.accounts ≡ none
    → set_allocation dir actor (some source_id) target x new_source new_target s ≡ (ok c, s')
    → (k : String) → k ≢ source_id
    → k ≢ c.id
    → find k s'.accounts ≡ find k s.accounts
set_allocation_user-others dir actor source_id target x new_source new_target s s' c scope keyed
      fresh h k ns nc =
    let (a, b, t, fa, resolved, ne, run) =
      set_allocation-steps dir actor source_id target x new_source new_target s s' c h in
    let placed =
      resolve_target_account-IsPlaced dir actor target a.id new_target s t b scope keyed fresh
        resolved in
    let key = key-find source_id a s.accounts fa in
    let source = placed.others a.id ne ∙ find-key source_id a s.accounts fa in
    let id =
      same_parent-id actor (to_big x) a b t placed.found placed.parent c source
        (ap (λ (r : Result AiCreditAccount × AiStore). r.0) run) in
    ap (λ (r : Result AiCreditAccount × AiStore). find k r.1.accounts) (sym run)
    ∙ same_parent-others actor (to_big x) a b t placed.found placed.parent k source
        (λ q. ns (q ∙ key)) (λ q. nc (q ∙ sym id))
    ∙ placed.others k (λ q. nc (q ∙ sym id))
