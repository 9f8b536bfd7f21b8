-- ===== src/Ledger/Decisions.antt =====
-- When `run_ledger_transfer` commits, and where an injected fault stops it.
use payops_intelligence.Prelude.{
  ◌≡◌, refl, ◌∙◌, true, Option, none, some, pos, ◌+ℤ◌, ◌-ℤ◌, +ℤ_parts, -ℤ_parts, ◌≤ℤ◌, int_laws,
  String, arith, contains, ap, eq_iff,
}
use payops_intelligence.Ledger.Rows.{LedgerAccount}
use payops_intelligence.Ledger.Database.{Tables, Store, Engine}
use payops_intelligence.Ledger.Accounts.{seed_ledger_accounts}
use payops_intelligence.Ledger.Monad.{
  injected, inconsistent, database, Result, ok, err, ◌>>=◌, Work,
}
use payops_intelligence.Ledger.Transfer.{
  Request, Fresh, debit, credit, fail_points, fails_at, assert_after, failure_point,
}
use payops_intelligence.Ledger.Run.{
  Outcome, returned, value_error, database_error, pay, body, opened, transact, unknown_point,
  run_ledger_transfer, settle, roll_back,
}
use payops_intelligence.Ledger.Checks.{IsPayable, lock_and_check-ok}
use payops_intelligence.Ledger.Body.{begun, noted, written}

-- The failure point that an outcome reports, with its status.
abbrev pub Reports : String → Option String → Outcome → Type 0
Reports status point (returned r) = (r.status ≡ status) × (r.failure_point ≡ point)
Reports status point (value_error text) = ⊥
Reports status point database_error = ⊥

module _ (T : Tables) (engine : Engine T) (fresh : Fresh) (q : Request) where
  -- The store after a commit from the store `s`.
  abbrev pub end : Store T → LedgerAccount → LedgerAccount → Store T
  end s a b = written T engine fresh q (noted T engine fresh q s a b) a b

  module _ (s : Store T) (a b : LedgerAccount) (payable : IsPayable T s.accounts q a b) where
    -- Without a fault the rest of the transaction succeeds, if its commit is accepted.
    pay_ok :
        q.fail_at ≡ none
        → pos 0 ≤ℤ b.balance_cents +ℤ q.amount_cents
        → engine.accepts (end s a b) ≡ true
        → (pay T engine fresh q (a, b) (noted T engine fresh q s a b)).0
          ≡ ok (debit a q.amount_cents fresh.debit_time, credit b q.amount_cents fresh.credit_time)
    unfolding pay assert_after fails_at
    pay_ok no_fault h accepted = ground (
      arith,
      -ℤ_parts a.balance_cents q.amount_cents,
      +ℤ_parts b.balance_cents q.amount_cents,
      +ℤ_parts (a.balance_cents -ℤ q.amount_cents) (b.balance_cents +ℤ q.amount_cents),
      +ℤ_parts a.balance_cents b.balance_cents,
    )

    -- An injected fault is raised at its point.
    pay_fails :
        (f : String)
        → q.fail_at ≡ some f
        → contains fail_points f ≡ true
        → pos 0 ≤ℤ b.balance_cents +ℤ q.amount_cents
        → (pay T engine fresh q (a, b) (noted T engine fresh q s a b)).0 ≡ err (injected f)
    unfolding pay assert_after fails_at
    pay_fails f fault known h = ground (
      arith,
      eq_iff f "after_debit",
      eq_iff f "after_credit",
      eq_iff f "after_ledger",
      eq_iff f "before_commit",
      -ℤ_parts a.balance_cents q.amount_cents,
      +ℤ_parts b.balance_cents q.amount_cents,
      +ℤ_parts (a.balance_cents -ℤ q.amount_cents) (b.balance_cents +ℤ q.amount_cents),
      +ℤ_parts a.balance_cents b.balance_cents,
    )

    -- With payable accounts the checks hand over to `pay`.
    body-pay :
        body T engine fresh q (opened T engine fresh s)
        ≡ pay T engine fresh q (a, b) (noted T engine fresh q s a b)
    unfolding body
    body-pay = rw (lock_and_check-ok T q (begun T engine fresh q s) a b payable, ◌>>=◌)

  settle_ok :
      (s : Store T) (m : Result (LedgerAccount × LedgerAccount) × Work T)
      → (found : LedgerAccount × LedgerAccount) → ((t : Store T) → engine.answers t ≡ true)
      → m.0 ≡ ok found
      → Reports "committed" none (settle T engine fresh q s m).0
  unfolding settle
  settle_ok s (ok (source, dest), w) found answered h = rw (answered w.view) (refl, refl)
  settle_ok s (err e, w) found answered h = cc

  settle_fails :
      (s : Store T) (m : Result (LedgerAccount × LedgerAccount) × Work T) (f : String)
      → ((t : Store T) → engine.answers t ≡ true)
      → m.0 ≡ err (injected f)
      → Reports "rolled_back" (some f) (settle T engine fresh q s m).0
  unfolding settle roll_back failure_point
  settle_fails s (ok found, w) f answered h = cc
  settle_fails s (err (injected g), w) f answered h = rw (answered s) (rw (answered (_)) (refl, cc))
  settle_fails s (err (inconsistent text), w) f answered h = cc
  settle_fails s (err database, w) f answered h = cc

  -- What a call needs of its store and arguments to reach the commit or an injected fault.
  pub record IsReady (s : Store T) (a b : LedgerAccount) : Type 0 where
    pub positive : pos 1 ≤ℤ q.amount_cents
    pub seeding : engine.accepts (seed_ledger_accounts T s) ≡ true
    pub payable : IsPayable T (seed_ledger_accounts T s).accounts q a b
    pub solvent : pos 0 ≤ℤ b.balance_cents
    pub answered : (t : Store T) → engine.answers t ≡ true

  reaches_transact :
      (s : Store T) (a b : LedgerAccount)
      → IsReady s a b
      → unknown_point T engine fresh q.fail_at ≡ none
      → run_ledger_transfer T engine fresh q s
        ≡ transact T engine fresh q (seed_ledger_accounts T s)
  unfolding run_ledger_transfer
  reaches_transact s a b ready known = ground arith

  no_point : q.fail_at ≡ none → unknown_point T engine fresh q.fail_at ≡ none
  unfolding unknown_point
  no_point no_fault = ground arith

  known_point :
      (f : String)
      → q.fail_at ≡ some f
      → contains fail_points f ≡ true
      → unknown_point T engine fresh q.fail_at ≡ none
  unfolding unknown_point
  known_point f fault known = rw fault (rw known)

  -- If the service accepts the seeding and answers the reads that follow, the seeded accounts differ, are active and in one currency,
  -- none of the two is overdrawn and the source covers a positive amount, then a transfer without
  -- a fault commits, where the database accepts what it writes.
  pub run_ledger_transfer_commits :
      (s : Store T) (a b : LedgerAccount)
      → IsReady s a b
      → q.fail_at ≡ none
      → engine.accepts (end (seed_ledger_accounts T s) a b) ≡ true
      → Reports "committed" none (run_ledger_transfer T engine fresh q s).0
  unfolding transact
  run_ledger_transfer_commits s a b ready no_fault accepted =
      rw (reaches_transact s a b ready (no_point no_fault)) (
        settle_ok (seed_ledger_accounts T s) _ _ ready.answered (
          ap (λ m. m.0) (body-pay _ a b ready.payable)
          ∙ pay_ok _ a b ready.payable no_fault (omega (int_laws, ready.positive, ready.solvent))
              accepted))

  -- If the service accepts the seeding and answers the reads that follow, the seeded accounts differ, are active and in one currency,
  -- none of the two is overdrawn and the source covers a positive amount, then a transfer with a
  -- known fault point rolls back and reports that point.
  pub run_ledger_transfer_injects :
      (s : Store T) (a b : LedgerAccount) (f : String)
      → IsReady s a b
      → q.fail_at ≡ some f
      → contains fail_points f ≡ true
      → Reports "rolled_back" (some f) (run_ledger_transfer T engine fresh q s).0
  unfolding transact
  run_ledger_transfer_injects s a b f ready fault known =
      rw (reaches_transact s a b ready (known_point f fault known)) (
        settle_fails (seed_ledger_accounts T s) _ f ready.answered (
          ap (λ m. m.0) (body-pay _ a b ready.payable)
          ∙ pay_fails _ a b ready.payable f fault known
              (omega (int_laws, ready.positive, ready.solvent))))
