-- ===== src/Ledger/Transfer.antt =====
-- packages/payops_core/ledger/transfer.py: `run_ledger_transfer` with its helpers, and
-- isolation.py. The two account objects are the rows `source` and `dest`; they reach the
-- transaction's view when the session flushes them at the commit.
use payops_intelligence.Prelude.{
  ℕ, ◌+◌, Bool, false, not, ◌||◌, Option, none, some, List, [], ◌∷◌, ◌++◌, ℤ, pos, ◌+ℤ◌, ◌-ℤ◌,
  ltb_ℤ, eqb_ℤ, String, str_eq, ◌<>◌, if◌then◌else◌,
}
use payops_intelligence.Ledger.Rows.{
  LedgerAccount, LedgerAuditEvent, TransferOperation, TransferAuditEvent, TransferResult,
}
use payops_intelligence.Ledger.Database.{Tables}
use payops_intelligence.Ledger.Monad.{
  Error, injected, inconsistent, database, Action, pure, gets, or_raise, ◌>>=◌, ◌>>◌, raise_if,
  modify,
}

abbrev pub fail_points : List String
fail_points = "after_debit" ∷ "after_credit" ∷ "after_ledger" ∷ "before_commit" ∷ []

-- The arguments of `run_ledger_transfer`.
pub record Request : Type 0 where
  pub from_account_id : String
  pub to_account_id : String
  pub amount_cents : ℤ
  pub fail_at : Option String

-- What the run takes from `uuid4` (the hexadecimal parts that name its rows) and from the clock.
pub record Fresh : Type 0 where
  pub transfer_hex : String
  pub debit_hex : String
  pub credit_hex : String
  pub audit_hex : ℕ → String
  pub debit_time : ℕ
  pub credit_time : ℕ
  pub write_time : ℕ

-- `isolation_for`
unfoldable pub isolation_for : String → String × String
isolation_for dialect =
    if str_eq dialect "sqlite"
    then (
      "IMMEDIATE",
      "SQLite reserved write lock: the debit/credit/ledger write is one transaction so a second transfer cannot persist a dirty or lost update on the same account.",
    )
    else (
      "SERIALIZABLE",
      "PostgreSQL SERIALIZABLE: the debit/credit/ledger write is one serializable snapshot so concurrent overdrafts cannot both commit.",
    )

unfoldable pub op : String → String → Option String → Option ℤ → TransferOperation
op name state account delta = record {
  name = name;
  state = state;
  account_id = account;
  delta_cents = delta;
}

unfoldable pub audit_row : String → String → String → String → ℕ → LedgerAuditEvent
audit_row hex transfer event detail time = record {
  audit_id = "la-" <> hex;
  transfer_id = transfer;
  event = event;
  detail = detail;
  created_at = time;
}

unfoldable pub audit_view : LedgerAuditEvent → TransferAuditEvent
audit_view row = record {
  audit_id = row.audit_id;
  event = row.event;
  detail = row.detail;
  created_at = row.created_at;
}

-- `_failure_point`
unfoldable pub failure_point : Error → String
failure_point (injected point) = point
failure_point (inconsistent detail) = "consistency"
failure_point database = "consistency"

-- `str(exc)`
unfoldable pub message : Error → String
message (injected point) = point
message (inconsistent detail) = detail
message database = ""

-- `_result`
unfoldable pub result :
    (transfer_id status : String) (q : Request) (isolation reason : String)
    → (failure : Option String) → (before_source before_dest after_source after_dest : ℤ)
    → List TransferOperation
    → List TransferAuditEvent
    → TransferResult
result transfer_id status q isolation reason failure bs bd as' ad operations audits = record {
  transfer_id = transfer_id;
  status = status;
  current_state = status;
  from_account_id = q.from_account_id;
  to_account_id = q.to_account_id;
  amount_cents = q.amount_cents;
  isolation_level = isolation;
  isolation_reason = reason;
  fail_at = q.fail_at;
  failure_point = failure;
  before_balance = record { source = bs; dest = bd };
  after_balance = record { source = as'; dest = ad };
  operations = operations;
  commit_or_rollback = if str_eq status "committed" then "COMMIT" else "ROLLBACK";
  audit_events = audits;
  notes =
      if str_eq status "committed"
      then "Committed debit, credit, and ledger journal in one database transaction."
      else "Injected or invariant failure rolled back debit/credit. Balances unchanged.";
}

unfoldable pub debit : LedgerAccount → ℤ → ℕ → LedgerAccount
debit a amount time = record a {
  balance_cents = a.balance_cents -ℤ amount;
  version = a.version + 1;
  updated_at = time;
}

unfoldable pub credit : LedgerAccount → ℤ → ℕ → LedgerAccount
credit a amount time = record a {
  balance_cents = a.balance_cents +ℤ amount;
  version = a.version + 1;
  updated_at = time;
}

-- `fail_at == point`
unfoldable pub fails_at : Option String → String → Bool
fails_at none point = false
fails_at (some f) point = str_eq f point

module _ (T : Tables) where
  unfoldable pub maybe_fail : Option String → String → Action T (Unit {0})
  unfolding fails_at
  maybe_fail fail_at point = raise_if (fails_at fail_at point) (injected point)

  unfoldable pub log_op : TransferOperation → Action T (Unit {0})
  log_op o = modify (λ w. record w { operations = w.operations ++ o ∷ [] })

  -- `_lock_and_check`, with the balances that its caller binds.
  unfoldable pub lock_and_check : String → String → ℤ → Action T (LedgerAccount × LedgerAccount)
  lock_and_check source_id dest_id amount = do
    raise_if (str_eq source_id dest_id) (inconsistent "from and to accounts must differ")
    found_source ← gets (λ w. T.account w.view.accounts source_id)
    found_dest ← gets (λ w. T.account w.view.accounts dest_id)
    source ← or_raise found_source (inconsistent "ledger account not found")
    dest ← or_raise found_dest (inconsistent "ledger account not found")
    raise_if (not (str_eq source.status "active") || not (str_eq dest.status "active"))
        (inconsistent "ledger account is not active")
    raise_if (not (str_eq source.currency dest.currency)) (inconsistent "currency mismatch")
    raise_if (ltb_ℤ source.balance_cents amount) (inconsistent "insufficient funds")
    modify
        (λ w. record w { before_source = source.balance_cents; before_dest = dest.balance_cents })
    pure (source, dest)

  -- `_assert_after`
  unfoldable pub assert_after : LedgerAccount → LedgerAccount → ℤ → ℤ → ℤ → Action T (Unit {0})
  assert_after source dest before_source before_dest amount = do
    raise_if (not (eqb_ℤ source.balance_cents (before_source -ℤ amount)))
        (inconsistent "source balance did not match debit")
    raise_if (not (eqb_ℤ dest.balance_cents (before_dest +ℤ amount)))
        (inconsistent "dest balance did not match credit")
    raise_if
        (not (eqb_ℤ (source.balance_cents +ℤ dest.balance_cents) (before_source +ℤ before_dest)))
        (inconsistent "conservation invariant failed")
    raise_if (ltb_ℤ source.balance_cents (pos 0) || ltb_ℤ dest.balance_cents (pos 0))
        (inconsistent "negative balance")
