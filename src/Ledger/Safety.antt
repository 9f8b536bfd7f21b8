-- ===== src/Ledger/Safety.antt =====
-- The promises of `run_ledger_transfer` to its callers: all or nothing, money conserved, no
-- overdraft, and when it commits.
use payops_intelligence.Prelude.{
  ◌≡◌, ◌+◌, ◌<>◌, refl, ◌⊎◌, inl, inr, Option, none, some, pos, ◌≤ℤ◌, subst, sym, eq_iff, ◌+ℤ◌,
  ◌-ℤ◌, leb_ℤ, Bool-cases, String, str_eq, arith, if◌then◌else◌, ap,
}
use payops_intelligence.Ledger.Rows.{LedgerAccount, LedgerEntry, TransferResult}
use payops_intelligence.Ledger.Database.{Tables, IsLawful, Store, Engine}
use payops_intelligence.Ledger.Accounts.{seed_ledger_accounts}
use payops_intelligence.Ledger.Transfer.{Request, Fresh, debit, credit}
use payops_intelligence.Ledger.Run.{
  add_journal, add_audits, flush_accounts, entry_row, transfer_id, Outcome, returned, value_error,
  database_error, guarded, run_ledger_transfer,
}
use payops_intelligence.Ledger.Seeding.{IsSolvent, seed-IsSolvent}
use payops_intelligence.Ledger.Outcomes.{IsCommitted, IsRolledBack, Settles, transact-Settles}
use payops_intelligence.Ledger.Checks.{IsPayable}
use payops_intelligence.Ledger.Balances.{
  total, committed_accounts, committed_total, committed-IsSolvent,
}

module _ (T : Tables) (engine : Engine T) (fresh : Fresh) (q : Request) where
  -- The transaction has ended, with the result.
  abbrev pub Returns : Store T → Store T → TransferResult → Type 0
  Returns s s' r =
      let seeded = seed_ledger_accounts T s in
      (pos 1 ≤ℤ q.amount_cents)
      × (IsCommitted T engine fresh q seeded s' r ⊎ IsRolledBack T engine fresh q seeded s' r)

  -- How a call ends on the store `s`. A `ValueError` comes before anything is written. An exception
  -- of the database leaves the store as it was, or as the seeding left it, or follows the end of
  -- the transaction, whose result is then lost.
  abbrev pub Runs : Store T → Outcome × Store T → Type 0
  Runs s (returned r, s') = Returns s s' r
  Runs s (value_error text, s') = s' ≡ s
  Runs s (database_error, s') =
      (s' ≡ s) ⊎ ((s' ≡ seed_ledger_accounts T s) ⊎ ((r : TransferResult) × Returns s s' r))

  from_Settles :
      (s : Store T) (o : Outcome × Store T)
      → pos 1 ≤ℤ q.amount_cents
      → Settles T engine fresh q (seed_ledger_accounts T s) o
      → Runs s o
  from_Settles s (returned r, s') positive h = (positive, h)
  from_Settles s (value_error text, s') positive h = absurd h
  from_Settles s (database_error, s') positive (inl e) = inr (inl e)
  from_Settles s (database_error, s') positive (inr (r, h)) = inr (inr (r, (positive, h)))

  guarded-Runs :
      (s : Store T) (unknown : Option String) → Runs s (guarded T engine fresh q s unknown)
  unfolding guarded
  guarded-Runs s (some text) = refl
  guarded-Runs s none = elim (Bool-cases (leb_ℤ q.amount_cents (pos 0))) [
    | inl zero_or_less ↦ rw zero_or_less refl
    | inr positive ↦ rw positive (elim (Bool-cases (engine.accepts (seed_ledger_accounts T s))) [
      | inl accepted ↦ rw accepted (
          from_Settles s _ (ground arith)
            (transact-Settles T engine fresh q (seed_ledger_accounts T s)))
      | inr refused ↦ rw refused (inl refl)
    ])
  ]

  -- Every call ends in one of these ways: refused by its arguments with nothing written, committed
  -- as a whole, rolled back with the accounts and the journal as before, or stopped by an exception
  -- of the database, which leaves nothing but the seeding or one of these two ends.
  pub run_ledger_transfer-Runs : (s : Store T) → Runs s (run_ledger_transfer T engine fresh q s)
  unfolding run_ledger_transfer
  run_ledger_transfer-Runs s = guarded-Runs s _

  module _ (L : IsLawful T) where
    -- An entry of the journal, for the amount of the call.
    abbrev journal_row : String → LedgerAccount → String → LedgerEntry
    journal_row hex account direction = record {
      entry_id = "le-" <> hex;
      transfer_id = "txn-" <> fresh.transfer_hex;
      account_id = account.account_id;
      direction = direction;
      amount_cents = q.amount_cents;
      created_at = fresh.write_time;
    }

    -- What a call that reports a commit has done to the accounts: the source had the amount and is
    -- debited, the destination is credited, their versions advance by one, no other account changes,
    -- the journal has one entry for each of the two, and the result carries the balances before and
    -- after.
    pub record Transferred (s s' : Store T) (r : TransferResult) : Type 0 where
      pub source : LedgerAccount
      pub dest : LedgerAccount
      pub payable : IsPayable T (seed_ledger_accounts T s).accounts q source dest
      pub accounts :
          (k : String)
          → T.account s'.accounts k ≡ (
              if str_eq q.to_account_id k
              then some (record dest {
                balance_cents = dest.balance_cents +ℤ q.amount_cents;
                version = dest.version + 1;
                updated_at = fresh.credit_time;
              })
              else if str_eq q.from_account_id k
              then some (record source {
                balance_cents = source.balance_cents -ℤ q.amount_cents;
                version = source.version + 1;
                updated_at = fresh.debit_time;
              })
              else T.account (seed_ledger_accounts T s).accounts k)
      pub journal :
          s'.entries
          ≡ T.add_entry
              (T.add_entry s.entries (journal_row fresh.debit_hex source "debit"))
              (journal_row fresh.credit_hex dest "credit")
      pub before :
          r.before_balance ≡ record { source = source.balance_cents; dest = dest.balance_cents }
      pub after : r.after_balance ≡ record {
        source = source.balance_cents -ℤ q.amount_cents;
        dest = dest.balance_cents +ℤ q.amount_cents;
      }

    committed_transfer :
        (s : Store T) (r : TransferResult) (s' : Store T)
        → Returns s s' r
        → r.status ≡ "committed"
        → Transferred s s' r
    unfolding debit credit seed_ledger_accounts add_journal add_audits flush_accounts entry_row
        transfer_id
    committed_transfer s r s' (positive, inl c) status = record {
      source = c.source;
      dest = c.dest;
      payable = c.payable;
      accounts = λ k. committed_accounts T L engine fresh q _ s' r k c;
      journal = ap (λ (x : Store T). x.entries) c.store;
      before = c.before;
      after = c.after;
    }
    committed_transfer s r s' (positive, inr b) status =
        absurd (ground (arith, b.status, status, eq_iff "committed" "rolled_back"))

    -- On lawful tables, a call that reports a commit has debited the source, which had the amount,
    -- and credited the destination by the amount, advanced the versions of both by one, changed no
    -- other account, and written one journal entry for each of the two.
    pub run_ledger_transfer-Transferred :
        (s s' : Store T) (r : TransferResult)
        → run_ledger_transfer T engine fresh q s ≡ (returned r, s')
        → r.status ≡ "committed"
        → Transferred s s' r
    run_ledger_transfer-Transferred s s' r e status =
        committed_transfer s r s' (rw e at (run_ledger_transfer-Runs s)) status

    -- Nothing: the accounts are as they were, or as the seeding left them, and so is the journal.
    abbrev pub IsUntouched : Store T → Store T → Type 0
    IsUntouched s s' =
        ((s'.accounts ≡ s.accounts) ⊎ (s'.accounts ≡ (seed_ledger_accounts T s).accounts))
        × (s'.entries ≡ s.entries)

    -- All, although the call has raised.
    abbrev pub IsUnreported : Store T → Outcome × Store T → Type 0
    IsUnreported s (o, s') = (o ≡ database_error) × ((r : TransferResult) × Transferred s s' r)

    total_returned :
        (s s' : Store T) (r : TransferResult)
        → Returns s s' r
        → total T s'.accounts ≡ total T (seed_ledger_accounts T s).accounts
    total_returned s s' r (positive, inl c) = committed_total T L engine fresh q _ s' r c
    total_returned s s' r (positive, inr b) = ap (total T) b.accounts

    total_frame :
        (s : Store T) (o : Outcome × Store T)
        → Runs s o
        → (total T o.1.accounts ≡ total T s.accounts)
          ⊎ (total T o.1.accounts ≡ total T (seed_ledger_accounts T s).accounts)
    total_frame s (returned r, s') h = inr (total_returned s s' r h)
    total_frame s (value_error text, s') e = inl (ap (λ x. total T x.accounts) e)
    total_frame s (database_error, s') (inl e) = inl (ap (λ x. total T x.accounts) e)
    total_frame s (database_error, s') (inr (inl e)) = inr (ap (λ x. total T x.accounts) e)
    total_frame s (database_error, s') (inr (inr (r, h))) = inr (total_returned s s' r h)

    returned-IsSolvent :
        (s s' : Store T) (r : TransferResult)
        → Returns s s' r
        → IsSolvent T s.accounts
        → IsSolvent T s'.accounts
    returned-IsSolvent s s' r (positive, inl c) h =
        committed-IsSolvent T L engine fresh q _ s' r c (omega arith) (seed-IsSolvent T L s h)
    returned-IsSolvent s s' r (positive, inr b) h =
        subst (IsSolvent T) (sym b.accounts) (seed-IsSolvent T L s h)

    IsSolvent-frame :
        (s : Store T) (o : Outcome × Store T)
        → Runs s o
        → IsSolvent T s.accounts
        → IsSolvent T o.1.accounts
    IsSolvent-frame s (returned r, s') ended h = returned-IsSolvent s s' r ended h
    IsSolvent-frame s (value_error text, s') e h =
        subst (λ x. IsSolvent T (Store.accounts x)) (sym e) h
    IsSolvent-frame s (database_error, s') (inl e) h =
        subst (λ x. IsSolvent T (Store.accounts x)) (sym e) h
    IsSolvent-frame s (database_error, s') (inr (inl e)) h =
        subst (λ x. IsSolvent T (Store.accounts x)) (sym e) (seed-IsSolvent T L s h)
    IsSolvent-frame s (database_error, s') (inr (inr (r, ended))) h =
        returned-IsSolvent s s' r ended h

    -- No overdraft: on lawful tables, if no balance is negative before a call, none is after it,
    -- however it ends.
    pub run_ledger_transfer-IsSolvent :
        (s : Store T)
        → IsSolvent T s.accounts
        → IsSolvent T (run_ledger_transfer T engine fresh q s).1.accounts
    run_ledger_transfer-IsSolvent s h = IsSolvent-frame s _ (run_ledger_transfer-Runs s) h

    -- Money is conserved: on lawful tables, however a call ends, the balances sum to what they
    -- summed to before it, or to what the seeding of missing accounts made of that.
    pub total-run_ledger_transfer :
        (s : Store T)
        → let s' = (run_ledger_transfer T engine fresh q s).1 in
          (total T s'.accounts ≡ total T s.accounts)
          ⊎ (total T s'.accounts ≡ total T (seed_ledger_accounts T s).accounts)
    total-run_ledger_transfer s = total_frame s _ (run_ledger_transfer-Runs s)
