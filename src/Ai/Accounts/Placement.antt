-- ===== src/Ai/Accounts/Placement.antt =====
-- Where `resolveTargetAccount` leaves a user's account.
use backend_softlogic.Base.{
  String, ◌≡◌, ◌≢◌, refl, sym, subst, inl, inr, ◌&&◌, Option, none, some, [], ◌∷◌, ◌++◌, arith,
  eq_iff, eq_refl, Bool-cases, Option-cases, first, same_text, same_text_iff,
}
use backend_softlogic.Base.Exec.{Result-cases, ok}
use backend_softlogic.Base.Table.{find, update, find-update_self, find-update_ne}
use backend_softlogic.Base.Table.Columns.{IsKeyed, find-first, find-append_one}
use backend_softlogic.Access.Roles.{Actor}
use backend_softlogic.Access.Directory.{Directory, User, user_row}
use backend_softlogic.Ai.Store.{AiCreditScope, AiCreditAccount, AiStore, account_row}
use backend_softlogic.Ai.Accounts.{
  Target, new_account, relocated, ensure_user_account, ensure_found_user_account, is_user_account,
  target_by_scope, resolve_target_account, managed_result, user_target, live_user, is_ai_user_role,
}

-- The account `a` stands under `p` in the new table, and no other row has changed.
pub record IsPlaced (p : String) (s : AiStore) (a : AiCreditAccount) (s' : AiStore) : Type 0 where
  pub found : find a.id s'.accounts ≡ some a
  pub parent : a.parent_account_id ≡ some p
  pub others : (k : String) → k ≢ a.id → find k s'.accounts ≡ find k s.accounts

ensure_found-IsPlaced :
    (new_id u : String) (o : Option String) (p : String) (found : Option AiCreditAccount)
    (s s' : AiStore) (a : AiCreditAccount)
    → find new_id s.accounts ≡ none
    → ((e : AiCreditAccount) → found ≡ some e → find e.id s.accounts ≡ some e)
    → ensure_found_user_account new_id u o p found s ≡ (ok a, s')
    → IsPlaced p s a s'
unfolding ensure_found_user_account
ensure_found-IsPlaced new_id u o p none s s' a fresh keyed h =
    let made = new_account new_id AiCreditScope.user (some p) o (some u) in
    let same : made ≡ a = ground arith in
    let state : record s { accounts = s.accounts ++ made ∷ [] } ≡ s' = ground arith in
    subst (λ b. IsPlaced p s b s') same
      (subst (λ t. IsPlaced p s made t) state
        (record {
          found = rw find-append_one (rw (fresh, eq_refl new_id));
          parent = refl;
          others = λ k n. rw find-append_one (ground (arith, eq_iff new_id k));
        }))
ensure_found-IsPlaced new_id u o p (some e) s s' a fresh keyed h =
    let own = keyed e refl in
    elim (Bool-cases (same_text e.organization_id o && same_text e.parent_account_id (some p))) [
      | inl there ↦
          let same : e ≡ a = ground arith in
          let state : s ≡ s' = ground arith in
          subst (λ b. IsPlaced p s b s') same
            (subst (λ t. IsPlaced p s e t) state
              (record {
                found = own;
                parent = (same_text_iff e.parent_account_id (some p)).0 (ground arith);
                others = λ k n. refl;
              }))
      | inr elsewhere ↦
          let made = relocated o p e in
          let same : made ≡ a = ground arith in
          let state : record s { accounts = update e.id (relocated o p) s.accounts } ≡ s' =
            ground arith in
          subst (λ b. IsPlaced p s b s') same
            (subst (λ t. IsPlaced p s made t) state
              (record {
                found = find-update_self e.id (relocated o p) e s.accounts (λ x. refl) own;
                parent = refl;
                others = λ k n.
                    find-update_ne e.id k (relocated o p) s.accounts (λ x. refl) (λ q. n (sym q));
              }))
    ]

ensure_user-IsPlaced :
    (new_id u : String) (o : Option String) (p : String) (s s' : AiStore) (a : AiCreditAccount)
    → IsKeyed s.accounts
    → find new_id s.accounts ≡ none
    → ensure_user_account new_id u o p s ≡ (ok a, s')
    → IsPlaced p s a s'
unfolding ensure_user_account
ensure_user-IsPlaced new_id u o p s s' a keyed fresh h =
    ensure_found-IsPlaced new_id u o p (first (is_user_account u) s.accounts) s s' a fresh
      (λ e f. find-first (is_user_account u) e s.accounts keyed f) h

user_target-IsPlaced :
    (dir : Directory) (actor : Actor) (p new_id : String) (v : User) (s s' : AiStore)
    (a : AiCreditAccount)
    → IsKeyed s.accounts
    → find new_id s.accounts ≡ none
    → user_target dir actor p new_id v s ≡ (ok a, s')
    → IsPlaced p s a s'
unfolding user_target
user_target-IsPlaced dir actor p new_id v s s' a keyed fresh h =
    ensure_user-IsPlaced new_id v.id v.primary_organization_id p s s' a keyed fresh
      (elim (Bool-cases (is_ai_user_role v.role)) [
        | inl may ↦ elim (Result-cases (managed_result dir actor v.primary_organization_id)) [
          | inl (t, e) ↦ ground arith
          | inr (f, e) ↦ absurd (ground arith)
        ]
        | inr barred ↦ absurd (ground arith)
      ])

-- For a request of scope `USER` the account that is resolved stands under the given parent, and no
-- other row has changed.
pub resolve_target_account-IsPlaced :
    (dir : Directory) (actor : Actor) (target : Target) (p new_id : String) (s s' : AiStore)
    (a : AiCreditAccount)
    → target.scope ≡ AiCreditScope.user
    → IsKeyed s.accounts
    → find new_id s.accounts ≡ none
    → resolve_target_account dir actor target p new_id s ≡ (ok a, s')
    → IsPlaced p s a s'
unfolding resolve_target_account target_by_scope
resolve_target_account-IsPlaced dir actor target p new_id s s' a scope keyed fresh h =
    elim (Option-cases target.user_id) [
      | inl e ↦ absurd (ground arith)
      | inr (u, eu) ↦ elim (Result-cases (live_user (find u dir.users))) [
        | inl (v, e) ↦ user_target-IsPlaced dir actor p new_id v s s' a keyed fresh (ground arith)
        | inr (f, e) ↦ absurd (ground arith)
      ]
    ]
