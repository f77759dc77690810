-- ===== src/Ai/Credits.antt =====
-- src/modules/ai/ai.service.ts: the operations on credit accounts. Each transaction reads, checks, writes
-- the balance and appends what it did to the ledger. A transaction is taken to run alone: what the
-- database does to two that overlap is not modelled.
pub mod Balance
pub mod Reservation
pub mod Charge
pub mod Solvency
pub mod Funding
pub mod Allocation
pub mod Refusal
pub mod Reassign
pub mod Reconcile
pub mod Requests
use backend_softlogic.Base.{
  ℕ, ◌+◌, String, Bool, true, false, not, ◌&&◌, ◌||◌, Option, none, some, List, [], ◌∷◌, ◌++◌, ◌==◌,
  keep, take, same_text, trim_or, if◌then◌else◌,
}
use backend_softlogic.Base.Int.{ℤ, pos, ◌+ℤ◌, ◌-ℤ◌, neg_ℤ, ltb_ℤ, leb_ℤ, clamp_ℤ}
use backend_softlogic.Base.Exec.{
  Exec, Result, ok, err, pure, raise, lift, gets, or_raise, raise_if, transaction, ◌>>=◌, ◌>>◌,
}
use backend_softlogic.Base.Failure.{
  Failure, Shortage, account_not_found, same_account, allocation_exceeds_source,
  allocation_below_spent, allocation_insufficient, credits_insufficient, credits_unavailable,
}
use backend_softlogic.Base.Table.{find}
use backend_softlogic.Access.Roles.{Actor}
use backend_softlogic.Access.Directory.{Directory}
use backend_softlogic.Ai.Pricing.{AiUsageEstimate}
use backend_softlogic.Ai.Store.{
  AiCreditAccountStatus, AiCreditAccount, AiCreditLedgerType, AiCreditLedgerEntry, AiStore,
  account_row, find_account, update_account, create_entry, entry,
}
use backend_softlogic.Ai.Accounts.{
  master_account_id, to_big, account_available, account_spent, account_deficit,
  subtract_child_allocation, is_disabled, assert_super_admin, Target, resolve_target_account,
  resolve_source_account_for_target,
}

-- the writes to an account, each a `data` object of an `update`
unfoldable pub add_allocated : ℤ → AiCreditAccount → AiCreditAccount
add_allocated amount a = record a {
  allocated_tokens = a.allocated_tokens +ℤ amount;
  status = AiCreditAccountStatus.active;
}

unfoldable pub add_child_allocated : ℤ → AiCreditAccount → AiCreditAccount
add_child_allocated amount a = record a {
  child_allocated_tokens = a.child_allocated_tokens +ℤ amount;
}

unfoldable pub receive_allocation : ℤ → String → AiCreditAccount → AiCreditAccount
receive_allocation amount source_id a = record a {
  parent_account_id = some source_id;
  allocated_tokens = a.allocated_tokens +ℤ amount;
  status = AiCreditAccountStatus.active;
}

unfoldable pub set_allocated : ℤ → String → AiCreditAccount → AiCreditAccount
set_allocated amount source_id a = record a {
  parent_account_id = some source_id;
  allocated_tokens = amount;
  status = if ltb_ℤ (pos 0) amount then AiCreditAccountStatus.active else a.status;
}

unfoldable pub set_child_allocated : ℤ → AiCreditAccount → AiCreditAccount
set_child_allocated amount a = record a { child_allocated_tokens = amount }

unfoldable pub add_reserved : ℤ → AiCreditAccount → AiCreditAccount
add_reserved amount a = record a { reserved_tokens = a.reserved_tokens +ℤ amount }

unfoldable pub release_reserved : ℤ → AiCreditAccount → AiCreditAccount
release_reserved amount a = record a { reserved_tokens = a.reserved_tokens -ℤ amount }

unfoldable pub commit_charge : ℤ → ℤ → AiCreditAccount → AiCreditAccount
commit_charge reserved charged a = record a {
  used_tokens = a.used_tokens +ℤ charged;
  reserved_tokens = a.reserved_tokens -ℤ reserved;
}

unfoldable pub subtract_used : ℤ → AiCreditAccount → AiCreditAccount
subtract_used amount a = record a { used_tokens = a.used_tokens -ℤ amount }

abbrev top_up_type : String → AiCreditLedgerType
top_up_type id =
    if id == master_account_id
    then AiCreditLedgerType.master_top_up
    else AiCreditLedgerType.manual_extension

pub top_up_account : Actor → ℤ → String → Exec AiStore AiCreditAccount
top_up_account actor amount account_id = do
  found ← find_account account_id
  account ← or_raise found account_not_found
  next ← update_account account.id (add_allocated amount)
  create_entry (
      entry account.id (some actor.user_id) (top_up_type account.id) account.balance_minor amount
        (account_available account) (account_available next))
  pure next

unfoldable pub top_up : Actor → Option String → ℤ → Exec AiStore AiCreditAccount
unfolding top_up_account
top_up actor account_id amount_tokens = do
  assert_super_admin actor
  transaction (top_up_account actor (to_big amount_tokens) (trim_or account_id master_account_id))

-- the transaction of `allocate`
pub move_allocation : Actor → ℤ → String → String → Exec AiStore AiCreditAccount
move_allocation actor amount source_id target_id = do
  found_source ← find_account source_id
  found_target ← find_account target_id
  source ← or_raise found_source account_not_found
  target ← or_raise found_target account_not_found
  raise_if (ltb_ℤ (account_available source) amount) allocation_exceeds_source
  source_after ← update_account source.id (add_child_allocated amount)
  target_after ← update_account target.id (receive_allocation amount source.id)
  create_entry (
      entry source.id (some actor.user_id) AiCreditLedgerType.allocation source.balance_minor
        (neg_ℤ amount) (account_available source) (account_available source_after))
  create_entry (
      entry target.id (some actor.user_id) AiCreditLedgerType.allocation target.balance_minor amount
        (account_available target) (account_available target_after))
  pure target_after

-- The ids of the accounts that the two resolutions may create are drawn beforehand.
unfoldable pub allocate :
    Directory → Actor → Option String → Target → ℤ → String → String → Exec AiStore AiCreditAccount
unfolding move_allocation
allocate dir actor source_account_id target_input amount_tokens new_source_id new_target_id = do
  let amount = to_big amount_tokens
  source ← resolve_source_account_for_target dir actor source_account_id target_input new_source_id
  target ← resolve_target_account dir actor target_input source.id new_target_id
  raise_if (source.id == target.id) same_account
  transaction (move_allocation actor amount source.id target.id)

-- the details of the two errors that report a shortage
abbrev pub shortage : ℤ → ℤ → ℤ → Shortage
shortage before required deficit =
    let available = clamp_ℤ before in
    record {
      available = available;
      required = required;
      minimum_top_up = if ltb_ℤ available required then required -ℤ available else pos 0;
      deficit = deficit;
    }

-- `oldParentAccount ? subtractChildAllocation(…) : 0n`
abbrev child_without : Option AiCreditAccount → ℤ → ℤ
child_without none amount = pos 0
child_without (some parent) amount = subtract_child_allocation parent amount

-- `if (parentChanged && targetAccount.parentAccountId)`
leave_parent : Bool → AiCreditAccount → Option String → Exec AiStore Unit
leave_parent false target parent = pure tt
leave_parent true target none = pure tt
leave_parent true target (some parent_id) = do
  parent ← find_account parent_id
  update_account parent_id (set_child_allocated (child_without parent target.allocated_tokens))
  pure tt

-- the writes of `setAllocation`, once its checks have passed
assign_allocation :
    Actor → ℤ → AiCreditAccount → AiCreditAccount → Bool → ℤ → ℤ → Exec AiStore AiCreditAccount
unfolding leave_parent
assign_allocation actor target_allocated source target parent_changed delta source_required = do
  leave_parent parent_changed target target.parent_account_id
  source_after ← update_account source.id (add_child_allocated source_required)
  target_after ← update_account target.id (set_allocated target_allocated source.id)
  create_entry (
      entry source.id (some actor.user_id) AiCreditLedgerType.allocation source.balance_minor
        (neg_ℤ delta) (account_available source) (account_available source_after))
  create_entry (
      entry target.id (some actor.user_id) AiCreditLedgerType.allocation target.balance_minor delta
        (account_available target) (account_available target_after))
  pure target_after

abbrev is_zero_ℤ : ℤ → Bool
is_zero_ℤ z = not (ltb_ℤ z (pos 0)) && not (ltb_ℤ (pos 0) z)

-- the part of the transaction behind the early return
change_allocation : Actor → ℤ → AiCreditAccount → AiCreditAccount → Exec AiStore AiCreditAccount
unfolding assign_allocation
change_allocation actor target_allocated source target = do
  let parent_changed = not (same_text target.parent_account_id (some source.id))
  let delta = target_allocated -ℤ target.allocated_tokens
  let source_before = account_available source
  let source_required = if parent_changed then target_allocated else delta
  raise_if (ltb_ℤ (pos 0) source_required && ltb_ℤ source_before source_required)
      (allocation_insufficient (shortage source_before source_required (account_deficit source)))
  assign_allocation actor target_allocated source target parent_changed delta source_required

-- the transaction of `setAllocation`
pub set_target_allocation : Actor → ℤ → String → String → Exec AiStore AiCreditAccount
unfolding change_allocation
set_target_allocation actor target_allocated source_id target_id = do
  found_source ← find_account source_id
  found_target ← find_account target_id
  source ← or_raise found_source account_not_found
  target ← or_raise found_target account_not_found
  raise_if (ltb_ℤ target_allocated (account_spent target))
      (allocation_below_spent target_allocated (account_spent target))
  if is_zero_ℤ (target_allocated -ℤ target.allocated_tokens)
        && same_text target.parent_account_id (some source.id)
      then pure target
      else change_allocation actor target_allocated source target

unfoldable pub set_allocation :
    Directory → Actor → Option String → Target → ℤ → String → String → Exec AiStore AiCreditAccount
unfolding set_target_allocation
set_allocation dir actor source_account_id target_input allocated_tokens new_source_id
      new_target_id =
    do
      let target_allocated = to_big allocated_tokens
      source ←
          resolve_source_account_for_target dir actor source_account_id target_input new_source_id
      target ← resolve_target_account dir actor target_input source.id new_target_id
      raise_if (source.id == target.id) same_account
      transaction (set_target_allocation actor target_allocated source.id target.id)

-- `!account || account.status === DISABLED`
pub usable : Option AiCreditAccount → Option AiCreditAccount
usable none = none
usable (some a) = if is_disabled a.status then none else some a

-- an entry with the counts of an estimate
abbrev pub with_usage :
    AiUsageEstimate → Option String → ℤ → AiCreditLedgerEntry → AiCreditLedgerEntry
with_usage estimate model_id cost e = record e {
  input_tokens = pos estimate.usage.input_tokens;
  output_tokens = pos estimate.usage.output_tokens;
  thinking_tokens = pos estimate.usage.thinking_tokens;
  total_tokens = pos estimate.usage.total_tokens;
  image_count = estimate.usage.image_count;
  search_grounding_count = estimate.usage.search_grounding_count;
  estimated_cost_micros = cost;
  model_id = model_id;
}

reserve_in : String → ℤ → Actor → AiUsageEstimate → String → Exec AiStore Unit
unfolding usable
reserve_in account_id amount actor estimate model_id = do
  found ← find_account account_id
  account ← or_raise (usable found) credits_unavailable
  let before = account_available account
  raise_if (not account.unlimited && ltb_ℤ before amount)
      (credits_insufficient (shortage before amount (account_deficit account)))
  next ← update_account account_id (add_reserved amount)
  create_entry (
      with_usage estimate (some model_id) amount (
        entry account_id (some actor.user_id) AiCreditLedgerType.reservation account.balance_minor
          amount before (account_available next)))

unfoldable pub reserve_tokens : String → ℤ → Actor → AiUsageEstimate → String → Exec AiStore Unit
unfolding reserve_in
reserve_tokens account_id amount actor estimate model_id =
    transaction (reserve_in account_id amount actor estimate model_id)

-- What a commit may charge: all of the usage on an unlimited account, and otherwise at most what is
-- available with the reservation given back.
unfoldable pub chargeable_credits : AiCreditAccount → ℤ → ℤ → ℤ
chargeable_credits account reserved credits =
    let releasable_available = account_available account +ℤ reserved in
    if account.unlimited
    then credits
    else if ltb_ℤ releasable_available credits
    then clamp_ℤ releasable_available
    else credits

pub record Committed : Type 0 where
  pub account : AiCreditAccount
  pub charged_credits : ℤ
  pub unbilled_overage_credits : ℤ

commit_in : String → ℤ → AiUsageEstimate → Actor → String → Exec AiStore Committed
unfolding chargeable_credits
commit_in account_id reserved usage actor model_id = do
  found ← find_account account_id
  account ← or_raise found account_not_found
  let credits = pos usage.credits
  let charged = chargeable_credits account reserved credits
  next ← update_account account_id (commit_charge reserved charged)
  create_entry (
      with_usage usage (some model_id) charged (
        entry account_id (some actor.user_id) AiCreditLedgerType.usage_commit account.balance_minor
          charged (account_available account) (account_available next)))
  pure (record {
    account = next;
    charged_credits = charged;
    unbilled_overage_credits = if ltb_ℤ charged credits then credits -ℤ charged else pos 0;
  })

unfoldable pub commit_usage : String → ℤ → AiUsageEstimate → Actor → String → Exec AiStore Committed
unfolding commit_in
commit_usage account_id reserved usage actor model_id =
    transaction (commit_in account_id reserved usage actor model_id)

refund_in : String → ℤ → Actor → Exec AiStore AiCreditAccount
refund_in account_id reserved actor = do
  found ← find_account account_id
  account ← or_raise found account_not_found
  next ← update_account account_id (release_reserved reserved)
  create_entry (
      entry account_id (some actor.user_id) AiCreditLedgerType.reservation_refund
        account.balance_minor (neg_ℤ reserved) (account_available account) (account_available next))
  pure next

unfoldable pub refund_reservation : String → ℤ → Actor → Exec AiStore AiCreditAccount
unfolding refund_in
refund_reservation account_id reserved actor = transaction (refund_in account_id reserved actor)

-- The amount by which an overdrawn account is corrected, 0 for one that is left alone.
unfoldable pub overdraw_adjustment : AiCreditAccount → ℤ
overdraw_adjustment a =
    let deficit = account_deficit a in
    if leb_ℤ deficit (pos 0) || leb_ℤ a.used_tokens (pos 0)
    then pos 0
    else if ltb_ℤ a.used_tokens deficit
    then a.used_tokens
    else deficit

correct : AiCreditAccount → Exec AiStore Unit
correct latest = do
  let adjustment = overdraw_adjustment latest
  next ← update_account latest.id (subtract_used adjustment)
  create_entry (
      entry latest.id none AiCreditLedgerType.adjustment latest.balance_minor (neg_ℤ adjustment)
        (account_available latest) (account_available next))

-- the transaction for one account, which reads it again
correct_latest : Option AiCreditAccount → Exec AiStore Unit
unfolding correct
correct_latest none = pure tt
correct_latest (some latest) =
    if leb_ℤ (account_deficit latest) (pos 0) || leb_ℤ latest.used_tokens (pos 0)
    then pure tt
    else correct latest

pub reconcile_account : AiCreditAccount → Exec AiStore Unit
unfolding correct_latest
reconcile_account account =
    if leb_ℤ (overdraw_adjustment account) (pos 0)
    then pure tt
    else transaction (find_account account.id >>= correct_latest)

-- The `where` clause. Which 1000 of the accounts the database takes is not said; here it is the first.
pub may_be_overdrawn : AiCreditAccount → Bool
may_be_overdrawn a = not a.unlimited && not (is_disabled a.status) && ltb_ℤ (pos 0) a.used_tokens

reconcile_each : List AiCreditAccount → Exec AiStore Unit
unfolding reconcile_account
reconcile_each [] = pure tt
reconcile_each (a ∷ rest) = do reconcile_account a; reconcile_each rest

unfoldable pub reconcile_overdrawn_usage_accounts : Exec AiStore Unit
unfolding may_be_overdrawn reconcile_each
reconcile_overdrawn_usage_accounts = do
  accounts ← gets (λ s. take 1000 (keep may_be_overdrawn s.accounts))
  reconcile_each accounts
