-- ===== src/Ai/Credits/Allocation.antt =====
-- `allocate`: what moves from one account to another.
use backend_softlogic.Base.{
  String, ◌≡◌, refl, sym, ap, ◌∙◌, ◌⊎◌, inl, inr, false, Option, some, List, [], ◌∷◌, ◌++◌, All,
  arith, Bool-cases, Option-cases,
}
use backend_softlogic.Base.Int.{
  ℤ, pos, ◌+ℤ◌, ◌-ℤ◌, ◌≤ℤ◌, ltb_ℤ, int_laws, eq_of_parts, pos_part, neg_part,
}
use backend_softlogic.Base.Exec.{transaction}
use backend_softlogic.Base.Keeps.{Keeps, keeps_rules}
use backend_softlogic.Base.Table.{
  find, update, sum, sum-update, key-find, All-find, All-update, All-update_found, find-key,
}
use backend_softlogic.Base.Table.Columns.{All-append_one, sum-append_one, sum-update_same}
use backend_softlogic.Access.Roles.{Actor}
use backend_softlogic.Access.Directory.{Directory}
use backend_softlogic.Ai.Store.{AiCreditScope, AiCreditAccount, AiStore, account_row}
use backend_softlogic.Ai.Accounts.{account_available, to_big, Target, new_account, relocated}
use backend_softlogic.Ai.Accounts.Resolution.{resolve_source-Keeps, resolve_target_account-Keeps}
use backend_softlogic.Ai.Credits.{
  add_child_allocated, receive_allocation, move_allocation, allocate,
}
use backend_softlogic.Ai.Credits.Solvency.{IsSolvent, AllSolvent}
use backend_softlogic.Ai.Credits.Funding.{
  IsSolvent-receive_allocation, IsSolvent-add_child_allocated, to_big_nonneg,
}

-- What the transaction of `allocate` has done when it has written: the source gave `x` to its children
-- and had it to give, and then the target received it.
record Moved (x : ℤ) (t u : List AiCreditAccount) : Type 0 where
  source : AiCreditAccount
  target : AiCreditAccount
  source_found : find source.id t ≡ some source
  funded : ltb_ℤ (account_available source) x ≡ false
  target_found : find target.id (update source.id (add_child_allocated x) t) ≡ some target
  key : String
  same_key : key ≡ target.id
  written :
      u ≡ update key (receive_allocation x source.id) (update source.id (add_child_allocated x) t)

module _ (actor : Actor) (x : ℤ) (source_id target_id : String) (s : AiStore) where
  abbrev moved : AiStore
  moved = (transaction (move_allocation actor x source_id target_id) s).1

  move_allocation-cases : (moved ≡ s) ⊎ Moved x s.accounts moved.accounts
  unfolding move_allocation
  move_allocation-cases = elim (Option-cases (find source_id s.accounts)) [
    | inl e ↦ inl (ground arith)
    | inr (a, ea) ↦ elim (Option-cases (find target_id s.accounts)) [
      | inl e ↦ inl (ground arith)
      | inr (b, eb) ↦ elim (Bool-cases (ltb_ℤ (account_available a) x)) [
        | inl short ↦ inl (ground arith)
        | inr funded ↦
            let own = find-key source_id a s.accounts ea in
            let first_write = update a.id (add_child_allocated x) s.accounts in
            elim (Option-cases (find b.id first_write)) [
              | inl e ↦ inl (ground arith)
              | inr (c, ec) ↦ inr (record {
                source = a;
                target = c;
                source_found = own;
                funded = funded;
                target_found = find-key b.id c first_write ec;
                key = b.id;
                same_key = sym (key-find b.id c first_write ec);
                written = ground arith;
              })
            ]
      ]
    ]
  ]

-- What an account holds of its own: what it was given less what it passed on.
abbrev pub own_credits : AiCreditAccount → ℤ
own_credits a = a.allocated_tokens -ℤ a.child_allocated_tokens

-- All credits that are in circulation.
abbrev pub circulating : AiStore → ℤ
circulating s = sum own_credits s.accounts

own_credits-add_child_allocated :
    (x : ℤ) (a : AiCreditAccount) → own_credits (add_child_allocated x a) ≡ own_credits a -ℤ x
unfolding add_child_allocated
own_credits-add_child_allocated x a = omega int_laws

own_credits-receive_allocation :
    (x : ℤ) (p : String) (a : AiCreditAccount)
    → own_credits (receive_allocation x p a) ≡ own_credits a +ℤ x
unfolding receive_allocation
own_credits-receive_allocation x p a = omega int_laws

move_balance : (s₁ s₂ s₃ a c x : ℤ) → s₂ +ℤ a ≡ s₁ +ℤ (a -ℤ x) → s₃ +ℤ c ≡ s₂ +ℤ (c +ℤ x) → s₃ ≡ s₁
move_balance s₁ s₂ s₃ a c x h k =
    eq_of_parts s₃ s₁ (omega (int_laws, ap pos_part h, ap neg_part h, ap pos_part k, ap neg_part k))

Moved-circulating :
    (x : ℤ) (t u : List AiCreditAccount) → Moved x t u → sum own_credits u ≡ sum own_credits t
Moved-circulating x t u m =
    let a = m.source in
    let c = m.target in
    let mid = update a.id (add_child_allocated x) t in
    rw (m.written, m.same_key)
      (move_balance (sum own_credits t) (sum own_credits mid) _ (own_credits a) (own_credits c) x
        (sum-update own_credits a.id (add_child_allocated x) a t m.source_found
          ∙ ap (λ z. sum own_credits t +ℤ z) (own_credits-add_child_allocated x a))
        (sum-update own_credits c.id (receive_allocation x a.id) c mid m.target_found
          ∙ ap (λ z. sum own_credits mid +ℤ z) (own_credits-receive_allocation x a.id c)))

Moved-IsSolvent :
    (x : ℤ) (t u : List AiCreditAccount)
    → pos 0 ≤ℤ x
    → Moved x t u
    → All IsSolvent t
    → All IsSolvent u
Moved-IsSolvent x t u nonneg m h =
    let a = m.source in
    let c = m.target in
    let mid =
      All-update_found IsSolvent a.id (add_child_allocated x) a t h m.source_found
        (IsSolvent-add_child_allocated x a m.funded) in
    rw (m.written, m.same_key)
      (All-update_found IsSolvent c.id (receive_allocation x a.id) c
        (update a.id (add_child_allocated x) t) mid m.target_found
        (IsSolvent-receive_allocation x a.id c nonneg
          (All-find IsSolvent c.id c _ mid m.target_found)))

new-IsSolvent :
    (id : String) (scope : AiCreditScope) (p o u : Option String)
    → IsSolvent (new_account id scope p o u)
unfolding account_available ◌-ℤ◌
new-IsSolvent id scope p o u = inr (omega arith)

own_credits-new : (z : ℤ) → z +ℤ (pos 0 -ℤ pos 0) ≡ z
own_credits-new z = omega int_laws

relocated-IsSolvent :
    (o : Option String) (p : String) (a : AiCreditAccount)
    → IsSolvent a
    → IsSolvent (relocated o p a)
unfolding account_available
relocated-IsSolvent o p a h = h

module _ (dir : Directory) (actor : Actor) (source : Option String) (target : Target) (amount : ℤ)
    (new_source new_target : String) where
  allocate-Keeps :
      (P : AiStore → Type 0)
      → ((s : AiStore) (id : String) (scope : AiCreditScope) (p o u : Option String)
          → P s
          → P (record s { accounts = s.accounts ++ new_account id scope p o u ∷ [] }))
      → ((s : AiStore) (id : String) (o : Option String) (p : String)
          → P s
          → P (record s { accounts = update id (relocated o p) s.accounts }))
      → ((a b : String) → Keeps P (transaction (move_allocation actor (to_big amount) a b)))
      → Keeps P (allocate dir actor source target amount new_source new_target)
  unfolding allocate
  allocate-Keeps P created moves moved_ok = search (
    keeps_rules,
    resolve_source-Keeps P created moves,
    resolve_target_account-Keeps P created moves,
    moved_ok,
  )

  -- After an allocation, granted or refused, every account is solvent if every one was before.
  pub allocate-AllSolvent :
      (s : AiStore)
      → AllSolvent s
      → AllSolvent (allocate dir actor source target amount new_source new_target s).1
  allocate-AllSolvent s h =
      (allocate-Keeps AllSolvent
          (λ t id scope p o u k.
            All-append_one IsSolvent _ t.accounts k (new-IsSolvent id scope p o u))
          (λ t id o p k.
            All-update IsSolvent id (relocated o p) t.accounts k
              (λ a e j. relocated-IsSolvent o p a j))
          (λ a b. record {
            at = λ t k. elim (move_allocation-cases actor (to_big amount) a b t) [
              | inl same ↦ rw same k
              | inr m ↦ Moved-IsSolvent (to_big amount) t.accounts _ (to_big_nonneg amount) m k
            ];
          })).at
        s h

  -- An allocation, granted or refused, with the accounts that it opens and moves on the way, leaves
  -- the credits in circulation as they were: the sum over all accounts of what was allocated to each
  -- less what it passed on to others.
  pub allocate-circulating :
      (s : AiStore)
      → circulating (allocate dir actor source target amount new_source new_target s).1
        ≡ circulating s
  allocate-circulating s =
      (allocate-Keeps (λ t. circulating t ≡ circulating s)
          (λ t id scope p o u k.
            sum-append_one own_credits (new_account id scope p o u) t.accounts
            ∙ own_credits-new (circulating t)
            ∙ k)
          (λ t id o p k. sum-update_same own_credits id (relocated o p) t.accounts (λ a. refl) ∙ k)
          (λ a b. record {
            at = λ t k. elim (move_allocation-cases actor (to_big amount) a b t) [
              | inl same ↦ rw same k
              | inr m ↦ Moved-circulating (to_big amount) t.accounts _ m ∙ k
            ];
          })).at
        s refl
