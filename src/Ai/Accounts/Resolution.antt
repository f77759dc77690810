-- ===== src/Ai/Accounts/Resolution.antt =====
-- What the resolution of accounts may change.
use backend_softlogic.Base.{String, Option, none, some, [], ◌∷◌, ◌++◌}
use backend_softlogic.Base.Exec.{pure}
use backend_softlogic.Base.Keeps.{Keeps, Keeps-if, Keeps-pure, keeps_rules}
use backend_softlogic.Base.Table.{find, update}
use backend_softlogic.Access.Roles.{Actor}
use backend_softlogic.Access.Directory.{Directory}
use backend_softlogic.Ai.Store.{
  AiCreditScope, AiCreditAccount, AiStore, account_row, write_found, find_account, update_account,
}
use backend_softlogic.Ai.Accounts.{
  new_account, relocated, or_create, ensure_master_account, ensure_organization_account,
  ensure_user_account, ensure_found_user_account, Target, target_by_scope, resolve_target_account,
  default_source_account, get_managed_account, source_without_id, source_by_id,
  resolve_source_account_for_target, own_or_organization, resolve_usage_account,
}

module _ (P : AiStore → Type 0)
    (created : (s : AiStore) (id : String) (scope : AiCreditScope) (p o u : Option String)
      → P s
      → P (record s { accounts = s.accounts ++ new_account id scope p o u ∷ [] }))
    (moved : (s : AiStore) (id : String) (o : Option String) (p : String)
      → P s
      → P (record s { accounts = update id (relocated o p) s.accounts })) where
  or_create-Keeps :
      (found : Option AiCreditAccount) (id : String) (scope : AiCreditScope) (p o u : Option String)
      → Keeps P (or_create found (new_account id scope p o u))
  or_create-Keeps none id scope p o u = record { at = λ s h. created s id scope p o u h }
  or_create-Keeps (some a) id scope p o u = record { at = λ s h. h }

  ensure_master_account-Keeps : Keeps P ensure_master_account
  unfolding ensure_master_account
  ensure_master_account-Keeps = record { at = λ s h. (or_create-Keeps _ _ _ _ _ _).at s h }

  ensure_organization_account-Keeps :
      (id o : String) (p : Option String) → Keeps P (ensure_organization_account id o p)
  unfolding ensure_organization_account
  ensure_organization_account-Keeps id o p = record {
    at = λ s h. (or_create-Keeps _ _ _ _ _ _).at s h;
  }

  write_relocated-Keeps :
      (id : String) (o : Option String) (p : String) (found : Option AiCreditAccount) (s : AiStore)
      → P s
      → P (write_found id (relocated o p) s found).1
  write_relocated-Keeps id o p none s h = h
  write_relocated-Keeps id o p (some a) s h = moved s id o p h

  update_account-Keeps :
      (id : String) (o : Option String) (p : String) → Keeps P (update_account id (relocated o p))
  update_account-Keeps id o p = record {
    at = λ s h. write_relocated-Keeps id o p (find id s.accounts) s h;
  }

  ensure_found-Keeps :
      (id u : String) (o : Option String) (p : String) (found : Option AiCreditAccount)
      → Keeps P (ensure_found_user_account id u o p found)
  unfolding ensure_found_user_account
  ensure_found-Keeps id u o p none = record { at = λ s h. created s id _ _ _ _ h }
  ensure_found-Keeps id u o p (some a) =
      Keeps-if _ (pure a) (update_account a.id (relocated o p)) (Keeps-pure a)
        (update_account-Keeps a.id o p)

  ensure_user_account-Keeps :
      (id u : String) (o : Option String) (p : String) → Keeps P (ensure_user_account id u o p)
  unfolding ensure_user_account
  ensure_user_account-Keeps id u o p = record { at = λ s h. (ensure_found-Keeps id u o p _).at s h }

  target_by_scope-Keeps :
      (dir : Directory) (actor : Actor) (t : Target) (p id : String) (scope : AiCreditScope)
      → Keeps P (target_by_scope dir actor t p id scope)
  unfolding target_by_scope
  target_by_scope-Keeps dir actor t p id AiCreditScope.organization =
      search (keeps_rules, ensure_organization_account-Keeps)
  target_by_scope-Keeps dir actor t p id AiCreditScope.user =
      search (keeps_rules, ensure_user_account-Keeps)
  target_by_scope-Keeps dir actor t p id _ = search keeps_rules

  pub resolve_target_account-Keeps :
      (dir : Directory) (actor : Actor) (t : Target) (p id : String)
      → Keeps P (resolve_target_account dir actor t p id)
  unfolding resolve_target_account
  resolve_target_account-Keeps dir actor t p id = target_by_scope-Keeps dir actor t p id t.scope

  default_source_account-Keeps :
      (dir : Directory) (actor : Actor) (id : String)
      → Keeps P (default_source_account dir actor id)
  unfolding default_source_account
  default_source_account-Keeps dir actor id =
      search (keeps_rules, ensure_organization_account-Keeps, ensure_master_account-Keeps)

  find_account-Keeps : (id : String) → Keeps P (find_account id)
  find_account-Keeps id = record { at = λ s h. h }

  get_managed_account-Keeps :
      (dir : Directory) (actor : Actor) (id : String) → Keeps P (get_managed_account dir actor id)
  unfolding get_managed_account
  get_managed_account-Keeps dir actor id = search (keeps_rules, find_account-Keeps)

  source_without_id-Keeps :
      (dir : Directory) (actor : Actor) (id : String) (o : Option String)
      → Keeps P (source_without_id dir actor id o)
  unfolding source_without_id
  source_without_id-Keeps dir actor id none = default_source_account-Keeps dir actor id
  source_without_id-Keeps dir actor id (some o) =
      search (keeps_rules, ensure_organization_account-Keeps)

  source_by_id-Keeps :
      (dir : Directory) (actor : Actor) (t : Target) (id : String) (source : Option String)
      → Keeps P (source_by_id dir actor t id source)
  unfolding source_by_id
  source_by_id-Keeps dir actor t id none = source_without_id-Keeps dir actor id _
  source_by_id-Keeps dir actor t id (some source) = get_managed_account-Keeps dir actor source

  pub resolve_source-Keeps :
      (dir : Directory) (actor : Actor) (source : Option String) (t : Target) (id : String)
      → Keeps P (resolve_source_account_for_target dir actor source t id)
  unfolding resolve_source_account_for_target
  resolve_source-Keeps dir actor source t id = source_by_id-Keeps dir actor t id source

  own_or_organization-Keeps :
      (id o : String) (own : Option AiCreditAccount) → Keeps P (own_or_organization id o own)
  unfolding own_or_organization
  own_or_organization-Keeps id o none = ensure_organization_account-Keeps id o _
  own_or_organization-Keeps id o (some a) = Keeps-pure a

  pub resolve_usage_account-Keeps :
      (actor : Actor) (id : String) → Keeps P (resolve_usage_account actor id)
  unfolding resolve_usage_account
  resolve_usage_account-Keeps actor id =
      search (keeps_rules, own_or_organization-Keeps, ensure_master_account-Keeps)
