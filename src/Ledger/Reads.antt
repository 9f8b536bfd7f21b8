-- ===== src/Ledger/Reads.antt =====
-- packages/payops_core/ledger/transfer.py: `get_transfer`, `list_recent_transfers` and
-- `account_views`, which read what the transfers have written.
pub mod RoundTrip
use payops_intelligence.Prelude.{
  ℕ, Option, none, some, List, [], ◌∷◌, map, String, str_eq, if◌then◌else◌,
}
use payops_intelligence.Prelude.Lists.{filter, take}
use payops_intelligence.Ledger.Rows.{
  LedgerAccount, LedgerAccountView, LedgerTransfer, LedgerAuditEvent, TransferAuditEvent,
  TransferOperation, TransferResult,
}
use payops_intelligence.Ledger.Database.{Tables, Store, Engine}
use payops_intelligence.Ledger.Accounts.{list_accounts}
use payops_intelligence.Ledger.Transfer.{Request, isolation_for, op, audit_view, result}
use payops_intelligence.Ledger.Run.{load_audits}

-- The operations that a stored transfer is shown with.
unfoldable pub operations_of : String → List TransferOperation
unfolding op
operations_of status =
    let state = if str_eq status "committed" then "applied" else "rolled_back" in
    op "BEGIN" "started" none none
    ∷ op "debit" state none none
    ∷ op "credit" state none none
    ∷ op "update ledger" state none none
    ∷ op (if str_eq status "committed" then "COMMIT" else "ROLLBACK") status none none
    ∷ []

-- The arguments that a stored transfer was made with.
unfoldable pub request_of : LedgerTransfer → Request
request_of row = record {
  from_account_id = row.from_account_id;
  to_account_id = row.to_account_id;
  amount_cents = row.amount_cents;
  fail_at = row.fail_at;
}

-- `_result_from_row`
unfoldable pub result_from_row :
    LedgerTransfer → (isolation reason : String) → List TransferAuditEvent → TransferResult
unfolding result operations_of request_of
result_from_row row isolation reason audits =
    result row.transfer_id row.status (request_of row) isolation reason row.failure_point
      row.before_from_cents row.before_to_cents row.after_from_cents row.after_to_cents
      (operations_of row.status) audits

-- `row.isolation_level or isolation`
unfoldable pub level_or : String → String → String
level_or level isolation = if str_eq level "" then isolation else level

unfoldable pub account_view : LedgerAccount → LedgerAccountView
account_view a = record {
  account_id = a.account_id;
  merchant_id = a.merchant_id;
  kind = a.kind;
  currency = a.currency;
  balance_cents = a.balance_cents;
  version = a.version;
  status = a.status;
}

module _ (T : Tables) (engine : Engine T) where
  -- A row with the audits that its caller has loaded.
  unfoldable pub shown : List TransferAuditEvent → LedgerTransfer → TransferResult
  unfolding result_from_row level_or isolation_for
  shown audits row =
      let (isolation, reason) = isolation_for engine.dialect in
      result_from_row row (level_or row.isolation_level isolation) reason audits

  unfoldable pub get_transfer : Store T → String → Option TransferResult
  unfolding shown load_audits
  get_transfer s id = elim (T.transfer s.transfers id) [
    | none ↦ none
    | some row ↦ some (shown (load_audits T s id) row)
  ]

  -- The dictionary `audits_by_id`, filled from the events of all the transfers in question.
  unfoldable pub audits_by_id : List LedgerAuditEvent → String → List TransferAuditEvent
  unfolding audit_view
  audits_by_id events id = map audit_view (filter (λ e. str_eq e.transfer_id id) events)

  unfoldable pub events_of : Store T → List String → List LedgerAuditEvent
  events_of s [] = []
  events_of s (id ∷ ids) = T.audits s.audits (id ∷ ids)

  unfoldable pub list_recent_transfers : Store T → ℕ → List TransferResult
  unfolding shown audits_by_id events_of
  list_recent_transfers s limit =
      let rows = take limit (T.newest_transfers s.transfers) in
      let events = events_of s (map (λ row. row.transfer_id) rows) in
      map (λ row. shown (audits_by_id events row.transfer_id) row) rows

  -- `account_views`, with the accounts that it may add in the session.
  unfoldable pub account_views : Store T → List LedgerAccountView × Store T
  unfolding account_view list_accounts
  account_views s = let (accounts, s') = list_accounts T s in (map account_view accounts, s')
