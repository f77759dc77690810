-- ===== src/Ai/Accounts.antt =====
-- src/modules/ai/ai.service.ts: the balance of a credit account, and which account a request draws on,
-- takes from or gives to. A new account's id, which the database draws, is an argument.
pub mod Levels
pub mod Resolution
pub mod Placement
use backend_softlogic.Base.{
  ℕ, ◌*◌, ◌/◌, String, Bool, true, false, not, ◌&&◌, ◌||◌, Option, none, some, List, [], ◌∷◌, ◌==◌,
  leb, first, includes, is_some, or_else, same_text, if◌then◌else◌,
}
use backend_softlogic.Base.Int.{ℤ, pos, negsuc, ◌+ℤ◌, ◌-ℤ◌, neg_ℤ, ltb_ℤ, leb_ℤ, clamp_ℤ}
use backend_softlogic.Base.Exec.{
  Exec, Result, ok, err, pure, raise, lift, gets, or_raise, raise_if, ◌>>=◌, ◌>>◌,
}
use backend_softlogic.Base.Failure.{
  Failure, account_not_found, account_not_accessible, organization_id_required, user_id_required,
  user_not_found, role_without_credits, scope_not_supported, admin_organization_required,
  organization_context_required, super_admin_only, ai_role_only,
}
use backend_softlogic.Base.Table.{find, update}
use backend_softlogic.Access.Roles.{UserRole, Actor, is_super_admin}
use backend_softlogic.Access.Directory.{Directory, User, Organization, user_row}
use backend_softlogic.Access.Managed.{
  ensure_organization_managed, get_managed_organization_ids, manages,
}
use backend_softlogic.Ai.Store.{
  AiCreditScope, AiCreditAccountStatus, AiCreditAccount, AiStore, account_row, find_account,
  update_account, create_account,
}

abbrev pub master_account_id : String
master_account_id = "master"

-- `toBig`: the requests are validated to be whole numbers.
abbrev pub to_big : ℤ → ℤ
to_big value = clamp_ℤ value

unfoldable pub account_available : AiCreditAccount → ℤ
account_available a =
    a.allocated_tokens -ℤ a.used_tokens -ℤ a.reserved_tokens -ℤ a.child_allocated_tokens

unfoldable pub account_spent : AiCreditAccount → ℤ
account_spent a = a.used_tokens +ℤ a.reserved_tokens +ℤ a.child_allocated_tokens

unfoldable pub account_deficit : AiCreditAccount → ℤ
account_deficit a =
    let available = account_available a in
    if ltb_ℤ available (pos 0) then neg_ℤ available else pos 0

unfoldable pub subtract_child_allocation : AiCreditAccount → ℤ → ℤ
subtract_child_allocation a amount =
    if ltb_ℤ amount a.child_allocated_tokens then a.child_allocated_tokens -ℤ amount else pos 0

pub data WarningLevel : Type 0 where
  none_level low_20 low_10 low_5 exhausted : WarningLevel

-- hundredths of a percent against 5, 10 and 20 percent; the source compares the hundredth part
level_of : ℕ → WarningLevel
level_of hundredths =
    if leb hundredths 500
    then WarningLevel.low_5
    else if leb hundredths 1000
    then WarningLevel.low_10
    else if leb hundredths 2000
    then WarningLevel.low_20
    else WarningLevel.none_level

-- Past the first test both amounts are positive, and so is the quotient of `bigint`s.
unfoldable pub warning_level_for : ℤ → ℤ → WarningLevel
unfolding level_of
warning_level_for (pos available) (pos allocated) =
    if leb allocated 0 || leb available 0
    then WarningLevel.exhausted
    else level_of (available * 10000 / allocated)
warning_level_for (pos available) (negsuc allocated) = WarningLevel.exhausted
warning_level_for (negsuc available) allocated = WarningLevel.exhausted

unfoldable pub assert_super_admin : Actor → Exec AiStore Unit
assert_super_admin actor = raise_if (not (is_super_admin actor.role)) super_admin_only

-- `AI_USER_ROLES.has(role)`
unfoldable pub is_ai_user_role : UserRole → Bool
is_ai_user_role UserRole.super_admin = true
is_ai_user_role UserRole.partner_admin = true
is_ai_user_role UserRole.customer_admin = true
is_ai_user_role UserRole.admin = true
is_ai_user_role UserRole.teacher = true
is_ai_user_role _ = false

abbrev is_organization_scope : AiCreditScope → Bool
is_organization_scope AiCreditScope.organization = true
is_organization_scope _ = false

abbrev pub is_user_scope : AiCreditScope → Bool
is_user_scope AiCreditScope.user = true
is_user_scope _ = false

abbrev pub is_disabled : AiCreditAccountStatus → Bool
is_disabled AiCreditAccountStatus.disabled = true
is_disabled _ = false

-- a row with every amount at its default
abbrev pub new_account :
    String → AiCreditScope → Option String → Option String → Option String → AiCreditAccount
new_account id scope parent organization_id user_id = record {
  id = id;
  scope = scope;
  parent_account_id = parent;
  organization_id = organization_id;
  user_id = user_id;
  balance_minor = pos 0;
  allocated_tokens = pos 0;
  used_tokens = pos 0;
  reserved_tokens = pos 0;
  child_allocated_tokens = pos 0;
  unlimited = false;
  status = AiCreditAccountStatus.active;
}

-- what was found, or else what `create` makes
abbrev pub or_create : Option AiCreditAccount → AiCreditAccount → Exec AiStore AiCreditAccount
or_create none a = create_account a
or_create (some found) a = pure found

unfoldable pub ensure_master_account : Exec AiStore AiCreditAccount
ensure_master_account s =
    or_create (find master_account_id s.accounts)
      (new_account master_account_id AiCreditScope.master none none none) s

abbrev pub is_organization_account : String → AiCreditAccount → Bool
is_organization_account organization_id a =
    is_organization_scope a.scope && same_text a.organization_id (some organization_id)

abbrev pub is_user_account : String → AiCreditAccount → Bool
is_user_account user_id a = is_user_scope a.scope && same_text a.user_id (some user_id)

unfoldable pub ensure_organization_account :
    String → String → Option String → Exec AiStore AiCreditAccount
ensure_organization_account new_id organization_id parent s =
    or_create (first (is_organization_account organization_id) s.accounts)
      (new_account new_id AiCreditScope.organization (some (or_else parent master_account_id))
        (some organization_id) none)
      s

abbrev pub relocated : Option String → String → AiCreditAccount → AiCreditAccount
relocated organization_id parent a = record a {
  organization_id = organization_id;
  parent_account_id = some parent;
}

-- the account of a user that exists is moved under the given parent, where it is not there yet
relocate : Option String → String → AiCreditAccount → Exec AiStore AiCreditAccount
relocate organization_id parent existing =
    if same_text existing.organization_id organization_id
      && same_text existing.parent_account_id (some parent)
    then pure existing
    else update_account existing.id (relocated organization_id parent)

ensure_found_user_account :
    String → String → Option String → String → Option AiCreditAccount → Exec AiStore AiCreditAccount
unfolding relocate
ensure_found_user_account new_id user_id organization_id parent none =
    create_account
      (new_account new_id AiCreditScope.user (some parent) organization_id (some user_id))
ensure_found_user_account new_id user_id organization_id parent (some existing) =
    relocate organization_id parent existing

unfoldable pub ensure_user_account :
    String → String → Option String → String → Exec AiStore AiCreditAccount
unfolding ensure_found_user_account
ensure_user_account new_id user_id organization_id parent s =
    ensure_found_user_account new_id user_id organization_id parent
      (first (is_user_account user_id) s.accounts) s

-- `!user || user.deletedAt`
live_user : Option User → Result User
live_user none = err user_not_found
live_user (some u) = if is_some u.deleted_at then err user_not_found else ok u

-- What a request names: its scope and the ids that go with it.
pub record Target : Type 0 where
  pub scope : AiCreditScope
  pub organization_id : Option String
  pub user_id : Option String

abbrev discard : Result Organization → Result (Unit {0})
discard (ok o) = ok tt
discard (err e) = err e

-- `if (id) await ensureOrganizationManaged(id, actor)`
managed_result : Directory → Actor → Option String → Result (Unit {0})
managed_result dir actor none = ok tt
managed_result dir actor (some id) = discard (ensure_organization_managed dir id actor)

abbrev check_managed : Directory → Actor → Option String → Exec AiStore Unit
check_managed dir actor o = lift (managed_result dir actor o)

-- the account of a user that exists and is not deleted
user_target : Directory → Actor → String → String → User → Exec AiStore AiCreditAccount
user_target dir actor parent new_id user = do
  raise_if (not (is_ai_user_role user.role)) role_without_credits
  check_managed dir actor user.primary_organization_id
  ensure_user_account new_id user.id user.primary_organization_id parent

target_by_scope :
    Directory → Actor → Target → String → String → AiCreditScope → Exec AiStore AiCreditAccount
unfolding managed_result live_user user_target
target_by_scope dir actor target parent new_id AiCreditScope.organization = do
  organization_id ← or_raise target.organization_id organization_id_required
  check_managed dir actor (some organization_id)
  ensure_organization_account new_id organization_id (some parent)
target_by_scope dir actor target parent new_id AiCreditScope.user = do
  user_id ← or_raise target.user_id user_id_required
  user ← lift (live_user (find user_id dir.users))
  user_target dir actor parent new_id user
target_by_scope dir actor target parent new_id _ = raise scope_not_supported

unfoldable pub resolve_target_account :
    Directory → Actor → Target → String → String → Exec AiStore AiCreditAccount
unfolding target_by_scope
resolve_target_account dir actor target parent new_id =
    target_by_scope dir actor target parent new_id target.scope

unfoldable pub default_source_account : Directory → Actor → String → Exec AiStore AiCreditAccount
unfolding managed_result
default_source_account dir actor new_id =
    if is_super_admin actor.role then ensure_master_account else do
      organization_id ← or_raise actor.organization_id admin_organization_required
      check_managed dir actor (some organization_id)
      ensure_organization_account new_id organization_id (some master_account_id)

-- `account.organizationId ?? account.user?.primaryOrganizationId`
account_organization : Directory → AiCreditAccount → Option String
account_organization dir a = elim a.organization_id [
  | some o ↦ some o
  | none ↦ elim a.user_id [
    | none ↦ none
    | some u ↦ elim (find u dir.users) [ none ↦ none | some v ↦ v.primary_organization_id ]
  ]
]

-- `accountOrgId && managedIds?.includes(accountOrgId)`
reaches : Option (List String) → Option String → Bool
reaches ids none = false
reaches ids (some o) = manages ids o

unfoldable pub get_managed_account : Directory → Actor → String → Exec AiStore AiCreditAccount
unfolding account_organization reaches
get_managed_account dir actor account_id = do
  found ← find_account account_id
  account ← or_raise found account_not_found
  raise_if
      (not (is_super_admin actor.role)
        && not
            (reaches (get_managed_organization_ids dir actor) (account_organization dir account)))
      account_not_accessible
  pure account

-- the organization of the user that a request of scope `USER` names
target_user_organization : Directory → Target → Option String
target_user_organization dir target =
    if is_user_scope target.scope
    then elim target.user_id [
      | none ↦ none
      | some u ↦ elim (find u dir.users) [ none ↦ none | some v ↦ v.primary_organization_id ]
    ]
    else none

source_without_id : Directory → Actor → String → Option String → Exec AiStore AiCreditAccount
unfolding managed_result
source_without_id dir actor new_id none = default_source_account dir actor new_id
source_without_id dir actor new_id (some organization_id) = do
  check_managed dir actor (some organization_id)
  ensure_organization_account new_id organization_id (some master_account_id)

source_by_id : Directory → Actor → Target → String → Option String → Exec AiStore AiCreditAccount
unfolding source_without_id target_user_organization
source_by_id dir actor target new_id (some source_account_id) =
    get_managed_account dir actor source_account_id
source_by_id dir actor target new_id none =
    source_without_id dir actor new_id (target_user_organization dir target)

unfoldable pub resolve_source_account_for_target :
    Directory → Actor → Option String → Target → String → Exec AiStore AiCreditAccount
unfolding source_by_id
resolve_source_account_for_target dir actor source_account_id target new_id =
    source_by_id dir actor target new_id source_account_id

-- an account of the user that is not disabled and has been allocated something
unfoldable pub usable_user_account : Actor → AiStore → Option AiCreditAccount
usable_user_account actor s =
    elim (first (λ a. is_user_account actor.user_id a && not (is_disabled a.status)) s.accounts) [
      | none ↦ none
      | some a ↦ if ltb_ℤ (pos 0) a.allocated_tokens then some a else none
    ]

unfoldable pub own_or_organization :
    String → String → Option AiCreditAccount → Exec AiStore AiCreditAccount
own_or_organization new_id organization_id (some a) = pure a
own_or_organization new_id organization_id none =
    ensure_organization_account new_id organization_id (some master_account_id)

unfoldable pub resolve_usage_account : Actor → String → Exec AiStore AiCreditAccount
unfolding usable_user_account own_or_organization
resolve_usage_account actor new_id =
    if is_super_admin actor.role && not (is_some actor.organization_id)
    then ensure_master_account
    else do
      organization_id ← or_raise actor.organization_id organization_context_required
      own ← gets (usable_user_account actor)
      own_or_organization new_id organization_id own
