-- ===== src/Bank/Transfers/Dto.antt =====
-- packages/shared/src/transfers/dto.ts: the shape in which the API shows a transfer.
use express_monorepo_bank_te.Base.{ℕ, String, Option, none, some}
use express_monorepo_bank_te.Bank.Errors.{ErrorCode}
use express_monorepo_bank_te.Bank.Schema.{TransferStatus, Transfer}

pub data TransferType : Type 0 where
  deposit transfer : TransferType

pub record TransferDto : Type 0 where
  pub id : ℕ
  pub kind : TransferType
  pub from_account_id : Option ℕ
  pub to_account_id : ℕ
  pub amount_cents : ℕ
  pub status : TransferStatus
  pub failure_reason : Option ErrorCode
  pub idempotency_key : Option String
  pub created_at : ℕ
  pub completed_at : Option ℕ

abbrev type_of : Option ℕ → TransferType
type_of none = deposit
type_of (some from) = transfer

-- `toTransferDto`; `kind` is the field `type`.
unfoldable pub to_transfer_dto : Transfer → TransferDto
to_transfer_dto row = record {
  id = row.id;
  kind = type_of row.from_account_id;
  from_account_id = row.from_account_id;
  to_account_id = row.to_account_id;
  amount_cents = row.amount_cents;
  status = row.status;
  failure_reason = row.failure_reason;
  idempotency_key = row.idempotency_key;
  created_at = row.created_at;
  completed_at = row.completed_at;
}
