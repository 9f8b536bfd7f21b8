-- ===== src/Ledger/Body.antt =====
-- What the transaction of `run_ledger_transfer` has done when it ends, on each way out.
use payops_intelligence.Prelude.{◌≡◌, true, none, [], ◌∷◌, pos, arith}
use payops_intelligence.Ledger.Rows.{LedgerAccount}
use payops_intelligence.Ledger.Database.{Tables, Store, Engine}
use payops_intelligence.Ledger.Monad.{Result, ok, err, proceed, Work}
use payops_intelligence.Ledger.Transfer.{Request, Fresh, debit, credit, assert_after, op}
use payops_intelligence.Ledger.Run.{opened, add_journal, add_audits, flush_accounts, pay, body}
use payops_intelligence.Ledger.Checks.{IsPayable, Checks, lock_and_check-Checks}

module _ (T : Tables) (engine : Engine T) (fresh : Fresh) (q : Request) where
  -- The transaction after its first operation, and after the checks.
  abbrev pub begun : Store T → Work T
  begun s = record {
    view = s;
    before_source = pos 0;
    before_dest = pos 0;
    operations = op "BEGIN" "started" none none ∷ [];
  }

  abbrev pub noted : Store T → LedgerAccount → LedgerAccount → Work T
  noted s a b = record (begun s) { before_source = a.balance_cents; before_dest = b.balance_cents }

  -- The view of a transaction that has written all it has to write.
  abbrev pub written : Work T → LedgerAccount → LedgerAccount → Store T
  written w a b =
      let source = debit a q.amount_cents fresh.debit_time in
      let dest = credit b q.amount_cents fresh.credit_time in
      (flush_accounts T engine fresh source dest
        (add_audits T engine fresh q (add_journal T engine fresh q source dest w))).view

  -- `pay` succeeds when all is written and accepted, and the balances noted before stay noted.
  abbrev Pays :
      Work T
      → LedgerAccount
      → LedgerAccount
      → Result (LedgerAccount × LedgerAccount) × Work T
      → Type 0
  Pays w a b (ok (source, dest), w') =
      (source ≡ debit a q.amount_cents fresh.debit_time)
      × (dest ≡ credit b q.amount_cents fresh.credit_time)
      × (w'.view ≡ written w a b)
      × (w'.before_source ≡ w.before_source)
      × (w'.before_dest ≡ w.before_dest)
      × (engine.accepts w'.view ≡ true)
  Pays w a b (err e, w') = (w'.before_source ≡ w.before_source) × (w'.before_dest ≡ w.before_dest)

  pay-Pays : (w : Work T) (a b : LedgerAccount) → Pays w a b (pay T engine fresh q (a, b) w)
  unfolding pay assert_after
  pay-Pays w a b = ground arith

  -- How the `try` block ends on a store: with two payable accounts, all written and accepted, or
  -- with an error.
  abbrev pub Ends : Store T → Result (LedgerAccount × LedgerAccount) × Work T → Type 0
  Ends s (ok (source, dest), w) =
      (a : LedgerAccount) × (b : LedgerAccount) × IsPayable T s.accounts q a b
      × (source ≡ debit a q.amount_cents fresh.debit_time)
      × (dest ≡ credit b q.amount_cents fresh.credit_time)
      × (w.view ≡ written (noted s a b) a b)
      × (w.before_source ≡ a.balance_cents)
      × (w.before_dest ≡ b.balance_cents)
      × (engine.accepts w.view ≡ true)
  Ends s (err e, w) = Unit

  from_Pays :
      (s : Store T) (a b : LedgerAccount)
      → IsPayable T s.accounts q a b
      → (r : Result (LedgerAccount × LedgerAccount) × Work T) → Pays (noted s a b) a b r
      → Ends s r
  from_Pays s a b payable (ok (source, dest), w) (es, ed, ew, eb, ec, h) =
      (a, b, payable, es, ed, ew, eb, ec, h)
  from_Pays s a b payable (err e, w) h = tt

  proceed-Ends :
      (s : Store T) (r : Result (LedgerAccount × LedgerAccount) × Work T)
      → Checks T q (begun s) r
      → Ends s (proceed (pay T engine fresh q) r)
  proceed-Ends s (ok (a, b), w) (payable, e) =
      rw e (from_Pays s a b payable _ (pay-Pays (noted s a b) a b))
  proceed-Ends s (err e, w) h = tt

  pub body-Ends : (s : Store T) → Ends s (body T engine fresh q (opened T engine fresh s))
  unfolding body
  body-Ends s = proceed-Ends s _ (lock_and_check-Checks T q (begun s))
