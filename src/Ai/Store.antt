-- ===== src/Ai/Store.antt =====
-- The tables of the AI module (`AiCreditAccount`, `AiCreditLedgerEntry` and their enums in
-- prisma/schema.prisma), and the calls of the database client that its transactions are made of.
use backend_softlogic.Base.{ℕ, String, Bool, Option, none, some, List, [], ◌∷◌, ◌++◌}
use backend_softlogic.Base.Int.{ℤ, pos}
use backend_softlogic.Base.Exec.{Exec, Result, ok, err}
use backend_softlogic.Base.Failure.{record_not_found}
use backend_softlogic.Base.Table.{Row, find, update}

pub data AiCreditScope : Type 0 where
  master organization user hardware : AiCreditScope

pub data AiCreditAccountStatus : Type 0 where
  active exhausted disabled : AiCreditAccountStatus

-- The columns that the service reads or writes; tokens are `bigint`s.
pub record AiCreditAccount : Type 0 where
  pub id : String
  pub scope : AiCreditScope
  pub parent_account_id : Option String
  pub organization_id : Option String
  pub user_id : Option String
  pub balance_minor : ℤ
  pub allocated_tokens : ℤ
  pub used_tokens : ℤ
  pub reserved_tokens : ℤ
  pub child_allocated_tokens : ℤ
  pub unlimited : Bool
  pub status : AiCreditAccountStatus

pub data AiCreditLedgerType : Type 0 where
  manual_extension adjustment master_top_up allocation reservation usage_commit : AiCreditLedgerType
  reservation_refund : AiCreditLedgerType

-- Of an entry, all but its JSON columns and the fixed texts of `reason`.
pub record AiCreditLedgerEntry : Type 0 where
  pub account_id : String
  pub actor_user_id : Option String
  pub entry_type : AiCreditLedgerType
  pub amount_minor : ℤ
  pub old_balance_minor : ℤ
  pub new_balance_minor : ℤ
  pub amount_tokens : ℤ
  pub old_token_balance : ℤ
  pub new_token_balance : ℤ
  pub input_tokens : ℤ
  pub output_tokens : ℤ
  pub thinking_tokens : ℤ
  pub total_tokens : ℤ
  pub image_count : ℕ
  pub search_grounding_count : ℕ
  pub estimated_cost_micros : ℤ
  pub model_id : Option String

pub record AiStore : Type 0 where
  pub accounts : List AiCreditAccount
  pub ledger : List AiCreditLedgerEntry

instance abbrev pub account_row : Row AiCreditAccount
account_row = record { key = λ a. a.id }

-- `tx.aiCreditAccount.findUnique`
abbrev pub find_account : String → Exec AiStore (Option AiCreditAccount)
find_account id s = (ok (find id s.accounts), s)

abbrev pub write_found :
    String
    → (AiCreditAccount → AiCreditAccount)
    → AiStore
    → Option AiCreditAccount
    → Result AiCreditAccount × AiStore
write_found id f s none = (err record_not_found, s)
write_found id f s (some a) = (ok (f a), record s { accounts = update id f s.accounts })

-- `tx.aiCreditAccount.update`, which throws where there is no such row
abbrev pub update_account :
    String → (AiCreditAccount → AiCreditAccount) → Exec AiStore AiCreditAccount
update_account id f s = write_found id f s (find id s.accounts)

-- `prisma.aiCreditAccount.create`
abbrev pub create_account : AiCreditAccount → Exec AiStore AiCreditAccount
create_account a s = (ok a, record s { accounts = s.accounts ++ a ∷ [] })

-- `tx.aiCreditLedgerEntry.create`
abbrev pub create_entry : AiCreditLedgerEntry → Exec AiStore Unit
create_entry e s = (ok tt, record s { ledger = s.ledger ++ e ∷ [] })

-- an entry with the columns that only the usage of a model fills at their defaults
abbrev pub entry : String → Option String → AiCreditLedgerType → ℤ → ℤ → ℤ → ℤ → AiCreditLedgerEntry
entry account_id actor entry_type balance amount before after = record {
  account_id = account_id;
  actor_user_id = actor;
  entry_type = entry_type;
  amount_minor = pos 0;
  old_balance_minor = balance;
  new_balance_minor = balance;
  amount_tokens = amount;
  old_token_balance = before;
  new_token_balance = after;
  input_tokens = pos 0;
  output_tokens = pos 0;
  thinking_tokens = pos 0;
  total_tokens = pos 0;
  image_count = 0;
  search_grounding_count = 0;
  estimated_cost_micros = pos 0;
  model_id = none;
}
