-- ===== src/Ledger/Outcomes.antt =====
-- How a call of `run_ledger_transfer` ends: committed as a whole, or undone as a whole.
use payops_intelligence.Prelude.{
  ◌≡◌, refl, ◌≢◌, ◌⊎◌, inl, inr, true, Bool-cases, none, ℤ, ◌+ℤ◌, ◌-ℤ◌, arith,
}
use payops_intelligence.Ledger.Rows.{LedgerAccount, TransferResult}
use payops_intelligence.Ledger.Database.{Tables, Store, Engine}
use payops_intelligence.Ledger.Monad.{
  Error, injected, inconsistent, database, Result, ok, err, Work,
}
use payops_intelligence.Ledger.Transfer.{Request, Fresh, debit, credit}
use payops_intelligence.Ledger.Run.{
  Outcome, returned, value_error, database_error, if_answered, attempted, persist_rollback,
  roll_back, settle, transact,
}
use payops_intelligence.Ledger.Checks.{IsPayable}
use payops_intelligence.Ledger.Body.{noted, written, Ends, body-Ends}

module _ (T : Tables) (engine : Engine T) (fresh : Fresh) (q : Request) where
  -- A result that reports a commit: both accounts were payable, the store is what the transaction
  -- wrote, and the balances of the result are those before and after.
  pub record IsCommitted (s s' : Store T) (r : TransferResult) : Type 0 where
    pub source : LedgerAccount
    pub dest : LedgerAccount
    pub payable : IsPayable T s.accounts q source dest
    pub store : s' ≡ written T engine fresh q (noted T engine fresh q s source dest) source dest
    pub status : r.status ≡ "committed"
    pub failure : r.failure_point ≡ none
    pub accepted : engine.accepts s' ≡ true
    pub before :
        r.before_balance ≡ record { source = source.balance_cents; dest = dest.balance_cents }
    pub after : r.after_balance ≡ record {
      source = source.balance_cents -ℤ q.amount_cents;
      dest = dest.balance_cents +ℤ q.amount_cents;
    }

  -- A result that reports a rollback: no balance and no journal entry has changed.
  pub record IsRolledBack (s s' : Store T) (r : TransferResult) : Type 0 where
    pub status : r.status ≡ "rolled_back"
    pub failure : r.failure_point ≢ none
    pub accounts : s'.accounts ≡ s.accounts
    pub entries : s'.entries ≡ s.entries
    pub merchants : s'.merchants ≡ s.merchants

  abbrev pub Settles : Store T → Outcome × Store T → Type 0
  Settles s (returned r, s') = IsCommitted s s' r ⊎ IsRolledBack s s' r
  Settles s (value_error text, s') = ⊥
  -- An exception of the database leaves the store as it was, or follows the end of the transaction.
  Settles s (database_error, s') =
      (s' ≡ s) ⊎ ((r : TransferResult) × (IsCommitted s s' r ⊎ IsRolledBack s s' r))

  if_answered-Settles :
      (s s' : Store T) (r : TransferResult)
      → IsCommitted s s' r ⊎ IsRolledBack s s' r
      → Settles s (if_answered T engine fresh r s', s')
  if_answered-Settles s s' r h = elim (Bool-cases (engine.answers s')) [
    | inl e ↦ rw e h
    | inr e ↦ rw e (inr (r, h))
  ]

  -- The row of a failed attempt leaves the accounts and the journal alone.
  persist_rollback_frame :
      (e : Error) (bf bt af at : ℤ) (s : Store T)
      → let s' = persist_rollback T engine fresh q e bf bt af at s in
        (s'.accounts ≡ s.accounts) × (s'.entries ≡ s.entries) × (s'.merchants ≡ s.merchants)
  unfolding persist_rollback attempted
  persist_rollback_frame e bf bt af at s = ground arith

  roll_back-IsRolledBack :
      (e : Error) (w : Work T) (s : Store T) → Settles s (roll_back T engine fresh q e w s)
  unfolding roll_back
  roll_back-IsRolledBack e w s = elim (Bool-cases (engine.answers s)) [
    | inl answered ↦ rw answered (
        if_answered-Settles s _ _ (
          inr (record {
            status = refl;
            failure = λ h. cc;
            accounts = (persist_rollback_frame e _ _ _ _ s).0;
            entries = (persist_rollback_frame e _ _ _ _ s).1;
            merchants = (persist_rollback_frame e _ _ _ _ s).2;
          })))
    | inr silent ↦ rw silent (inl refl)
  ]

  settle-Settles :
      (s : Store T) (r : Result (LedgerAccount × LedgerAccount) × Work T)
      → Ends T engine fresh q s r
      → Settles s (settle T engine fresh q s r)
  unfolding settle debit credit
  settle-Settles s (ok (source, dest), w) (a, b, payable, es, ed, ew, eb, ec, h) =
      if_answered-Settles s w.view _ (
        inl (record {
          source = a;
          dest = b;
          payable = payable;
          store = ew;
          status = refl;
          failure = refl;
          accepted = h;
          before = ground arith;
          after = ground arith;
        }))
  settle-Settles s (err database, w) h = inl refl
  settle-Settles s (err (injected point), w) h = roll_back-IsRolledBack (injected point) w s
  settle-Settles s (err (inconsistent text), w) h = roll_back-IsRolledBack (inconsistent text) w s

  pub transact-Settles : (s : Store T) → Settles s (transact T engine fresh q s)
  unfolding transact
  transact-Settles s = settle-Settles s _ (body-Ends T engine fresh q s)
