-- ===== src/Ledger/Run.antt =====
-- packages/payops_core/ledger/transfer.py: `run_ledger_transfer`, from the guards to the handlers.
use payops_intelligence.Prelude.{
  ℕ, not, ◌&&◌, Option, none, some, List, [], ◌∷◌, ◌++◌, map, ℤ, pos, ◌-ℤ◌, leb_ℤ, eqb_ℤ, String,
  ◌<>◌, contains, show, if◌then◌else◌,
}
use payops_intelligence.Ledger.Rows.{
  LedgerAccount, LedgerTransfer, LedgerEntry, TransferResult, TransferAuditEvent,
}
use payops_intelligence.Ledger.Database.{Tables, Store, Engine}
use payops_intelligence.Ledger.Accounts.{seed_ledger_accounts}
use payops_intelligence.Ledger.Monad.{
  Error, database, Result, ok, err, Work, Action, pure, gets, ◌>>=◌, ◌>>◌, raise_if, modify,
}
use payops_intelligence.Ledger.Transfer.{
  Request, Fresh, fail_points, isolation_for, op, audit_row, audit_view, failure_point, message,
  result, debit, credit, maybe_fail, log_op, lock_and_check, assert_after,
}

-- What a call ends with: a result, a `ValueError`, or an exception of the database.
pub data Outcome : Type 0 where
  returned : TransferResult → Outcome
  value_error : String → Outcome
  database_error : Outcome

module _ (T : Tables) where
  -- `_load_audits`
  unfoldable pub load_audits : Store T → String → List TransferAuditEvent
  unfolding audit_view
  load_audits s id = map audit_view (T.audits s.audits (id ∷ []))

  unfoldable pub balance_or_zero : Option LedgerAccount → ℤ
  balance_or_zero none = pos 0
  balance_or_zero (some a) = a.balance_cents

  -- `_balances`
  unfoldable pub balances : Store T → String → String → ℤ × ℤ
  unfolding balance_or_zero
  balances s source dest =
      (balance_or_zero (T.account s.accounts source), balance_or_zero (T.account s.accounts dest))

  unfoldable pub currency_or_inr : Option LedgerAccount → String
  currency_or_inr none = "INR"
  currency_or_inr (some a) = a.currency

  -- `_account_currency`
  unfoldable pub account_currency : Store T → String → String
  unfolding currency_or_inr
  account_currency s id = currency_or_inr (T.account s.accounts id)

module _ (T : Tables) (engine : Engine T) (fresh : Fresh) where
  unfoldable pub transfer_id : String
  transfer_id = "txn-" <> fresh.transfer_hex

  unfoldable pub isolation : String
  unfolding isolation_for
  isolation = (isolation_for engine.dialect).0

  unfoldable pub reason : String
  unfolding isolation_for
  reason = (isolation_for engine.dialect).1

  -- The row of the transfer, with the status and the balances that its caller gives.
  unfoldable pub transfer_row :
      Request
      → (currency status : String) → Option String
      → (before_from before_to after_from after_to : ℤ) → LedgerTransfer
  unfolding transfer_id isolation
  transfer_row q currency status failure bf bt af at = record {
    transfer_id = transfer_id;
    from_account_id = q.from_account_id;
    to_account_id = q.to_account_id;
    amount_cents = q.amount_cents;
    currency = currency;
    status = status;
    isolation_level = isolation;
    fail_at = q.fail_at;
    failure_point = failure;
    before_from_cents = bf;
    before_to_cents = bt;
    after_from_cents = af;
    after_to_cents = at;
    created_at = fresh.write_time;
  }

  unfoldable pub entry_row : String → String → String → ℤ → LedgerEntry
  unfolding transfer_id
  entry_row hex account direction amount = record {
    entry_id = "le-" <> hex;
    transfer_id = transfer_id;
    account_id = account;
    direction = direction;
    amount_cents = amount;
    created_at = fresh.write_time;
  }

  unfoldable pub add_audit : ℕ → String → String → Store T → Store T
  unfolding audit_row transfer_id
  add_audit n event detail s = record s {
    audits =
        T.add_audit s.audits
          (audit_row (fresh.audit_hex n) transfer_id event detail fresh.write_time);
  }

  -- `session.add` of the transfer and of the two journal entries.
  unfoldable pub add_journal : Request → LedgerAccount → LedgerAccount → Work T → Work T
  unfolding transfer_row entry_row
  add_journal q source dest w = record w {
    view = record (w.view) {
      transfers = T.add_transfer w.view.transfers (
          transfer_row q source.currency "committed" none w.before_source w.before_dest
            source.balance_cents dest.balance_cents);
      entries =
          T.add_entry
            (T.add_entry w.view.entries
              (entry_row fresh.debit_hex source.account_id "debit" q.amount_cents))
            (entry_row fresh.credit_hex dest.account_id "credit" q.amount_cents);
    };
  }

  -- The loop that adds the five audit rows.
  unfoldable pub add_audits : Request → Work T → Work T
  unfolding add_audit isolation
  add_audits q w = record w {
    view = add_audit 4 "COMMIT" "balances persisted" (
        add_audit 3 "ledger" "journal entries written" (
          add_audit 2 "credit" (q.to_account_id <> " +" <> show q.amount_cents) (
            add_audit 1 "debit" (q.from_account_id <> " -" <> show q.amount_cents)
              (add_audit 0 "BEGIN" ("isolation=" <> isolation) w.view))));
  }

  -- The flush of the two changed accounts, which `session.commit` begins with.
  unfoldable pub flush_accounts : LedgerAccount → LedgerAccount → Work T → Work T
  flush_accounts source dest w = record w {
    view = record (w.view) { accounts = T.put_account (T.put_account w.view.accounts source) dest };
  }

  -- The `try` block behind the checks, up to `session.commit`, which raises if the database refuses.
  unfoldable pub pay :
      Request → LedgerAccount × LedgerAccount → Action T (LedgerAccount × LedgerAccount)
  unfolding log_op op debit credit maybe_fail add_journal assert_after add_audits flush_accounts
  pay q found = do
    let source = debit found.0 q.amount_cents fresh.debit_time
    log_op T (op "debit" "applied" (some source.account_id) (some (pos 0 -ℤ q.amount_cents)))
    maybe_fail T q.fail_at "after_debit"
    let dest = credit found.1 q.amount_cents fresh.credit_time
    log_op T (op "credit" "applied" (some dest.account_id) (some q.amount_cents))
    maybe_fail T q.fail_at "after_credit"
    modify (add_journal q source dest)
    log_op T (op "update ledger" "applied" none none)
    maybe_fail T q.fail_at "after_ledger"
    before_source ← gets (λ w. w.before_source)
    before_dest ← gets (λ w. w.before_dest)
    assert_after T source dest before_source before_dest q.amount_cents
    maybe_fail T q.fail_at "before_commit"
    modify (add_audits q)
    modify (flush_accounts source dest)
    accepted ← gets (λ w. engine.accepts w.view)
    raise_if (not accepted) database
    log_op T (op "COMMIT" "committed" none none)
    pure (source, dest)

  -- The whole `try` block.
  unfoldable pub body : Request → Action T (LedgerAccount × LedgerAccount)
  unfolding log_op op lock_and_check pay
  body q = do
    log_op T (op "BEGIN" "started" none none)
    found ← lock_and_check T q.from_account_id q.to_account_id q.amount_cents
    pay q found

  -- The record of a failed attempt, with its two audit rows.
  unfoldable pub attempted : Request → Error → ℤ → ℤ → ℤ → ℤ → Store T → Store T
  unfolding transfer_row account_currency add_audit failure_point message isolation
  attempted q e bf bt af at s =
      let row =
        transfer_row q (account_currency T s q.from_account_id) "rolled_back"
          (some (failure_point e)) bf bt af at in
      add_audit 1 "ROLLBACK" (failure_point e <> ": " <> message e) (
        add_audit 0 "BEGIN" ("isolation=" <> isolation)
          (record s { transfers = T.add_transfer s.transfers row }))

  -- `_persist_rollback`: its exception is logged and dropped, so a refused commit leaves the store.
  unfoldable pub persist_rollback : Request → Error → ℤ → ℤ → ℤ → ℤ → Store T → Store T
  unfolding attempted
  persist_rollback q e bf bt af at s =
      let s' = attempted q e bf bt af at s in if engine.accepts s' then s' else s

  -- The result, unless a read that it takes after the commit raises.
  abbrev pub if_answered : TransferResult → Store T → Outcome
  if_answered r s = if engine.answers s then returned r else database_error

  -- `except (InjectedFailure, ConsistencyError)`, with the reads of `_balances` and `_load_audits`.
  unfoldable pub roll_back : Request → Error → Work T → Store T → Outcome × Store T
  unfolding balances persist_rollback load_audits result op failure_point transfer_id isolation
      reason
  roll_back q e w s =
      let after = balances T s q.from_account_id q.to_account_id in
      let unread = eqb_ℤ w.before_source (pos 0) && eqb_ℤ w.before_dest (pos 0) in
      let before_source = if unread then after.0 else w.before_source in
      let before_dest = if unread then after.1 else w.before_dest in
      let s' = persist_rollback q e before_source before_dest after.0 after.1 s in
      if not (engine.answers s) then (database_error, s) else (
        if_answered
            (result transfer_id "rolled_back" q isolation reason (some (failure_point e))
              before_source before_dest after.0 after.1
              (w.operations ++ op "ROLLBACK" "rolled_back" none none ∷ [])
              (load_audits T s' transfer_id))
            s',
        s',
      )

  -- The ends of the `try` statement. Closing the session drops an uncommitted transaction.
  unfoldable pub settle :
      Request → Store T → Result (LedgerAccount × LedgerAccount) × Work T → Outcome × Store T
  unfolding roll_back result load_audits transfer_id isolation reason
  settle q s (ok (source, dest), w) = (
    if_answered
        (result transfer_id "committed" q isolation reason none w.before_source w.before_dest
          source.balance_cents dest.balance_cents w.operations (load_audits T w.view transfer_id))
        w.view,
    w.view,
  )
  settle q s (err database, w) = (database_error, s)
  settle q s (err e, w) = roll_back q e w s

  abbrev pub opened : Store T → Work T
  opened s = record { view = s; before_source = pos 0; before_dest = pos 0; operations = [] }

  -- The transaction on a seeded store.
  unfoldable pub transact : Request → Store T → Outcome × Store T
  unfolding settle body
  transact q s = settle q s (body q (opened s))

  unfoldable pub unknown_point : Option String → Option String
  unknown_point none = none
  unknown_point (some f) = if contains fail_points f then none else some ("unknown fail_at: " <> f)

  -- The call once `fail_at` has been looked at.
  unfoldable pub guarded : Request → Store T → Option String → Outcome × Store T
  unfolding transact seed_ledger_accounts
  guarded q s (some text) = (value_error text, s)
  guarded q s none =
      let seeded = seed_ledger_accounts T s in
      if leb_ℤ q.amount_cents (pos 0)
      then (value_error "amount_cents must be positive", s)
      else if engine.accepts seeded
      then transact q seeded
      else (database_error, s)

  unfoldable pub run_ledger_transfer : Request → Store T → Outcome × Store T
  unfolding guarded
  run_ledger_transfer q s = guarded q s (unknown_point q.fail_at)
