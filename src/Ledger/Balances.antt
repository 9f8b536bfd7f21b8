-- ===== src/Ledger/Balances.antt =====
-- What a committed transfer does to the balances of the accounts, one by one and in total.
use payops_intelligence.Prelude.{
  ◌≡◌, sym, ◌∙◌, some, List, [], ◌∷◌, ℤ, pos, ◌+ℤ◌, ◌≤ℤ◌, int_laws, -ℤ_parts, +ℤ_parts, String,
  str_eq, arith, if◌then◌else◌,
}
use payops_intelligence.Ledger.Rows.{LedgerAccount, TransferResult}
use payops_intelligence.Ledger.Database.{
  Tables, IsLawful, Store, Engine, find_account, replace_account,
}
use payops_intelligence.Ledger.Transfer.{Request, Fresh, debit, credit}
use payops_intelligence.Ledger.Run.{flush_accounts, add_audits, add_journal}
use payops_intelligence.Ledger.Checks.{IsPayable, account-key}
use payops_intelligence.Ledger.Seeding.{IsSolvent}
use payops_intelligence.Ledger.Outcomes.{IsCommitted}

-- The sum of the balances of these rows.
abbrev pub sum_balances : List LedgerAccount → ℤ
sum_balances [] = pos 0
sum_balances (a ∷ rows) = a.balance_cents +ℤ sum_balances rows

sum_balances-replace_account :
    (a old : LedgerAccount) (rows : List LedgerAccount)
    → find_account rows a.account_id ≡ some old
    → sum_balances (replace_account a rows) +ℤ old.balance_cents
      ≡ sum_balances rows +ℤ a.balance_cents
sum_balances-replace_account a old [] h = cc
sum_balances-replace_account a old (b ∷ rows) h =
    grind (int_laws, sum_balances-replace_account a old rows)

module _ (T : Tables) where
  -- All the money in the ledger.
  unfoldable pub total : T.Accounts → ℤ
  total s = sum_balances (T.accounts s)

  module _ (L : IsLawful T) where
    total-put_account :
        (s : T.Accounts) (a old : LedgerAccount)
        → T.account s a.account_id ≡ some old
        → total (T.put_account s a) +ℤ old.balance_cents ≡ total s +ℤ a.balance_cents
    unfolding total
    total-put_account s a old h =
        rw (L.accounts-put_account s a old h)
          (sum_balances-replace_account a old (T.accounts s) (sym (L.account-accounts s _) ∙ h))

    module _ (engine : Engine T) (fresh : Fresh) (q : Request) where
      moved : T.Accounts → LedgerAccount → LedgerAccount → T.Accounts
      moved s a b =
          T.put_account (T.put_account s (debit a q.amount_cents fresh.debit_time))
            (credit b q.amount_cents fresh.credit_time)

      account-moved :
          (s : T.Accounts) (a b : LedgerAccount) (k : String)
          → IsPayable T s q a b
          → T.account (moved s a b) k ≡ (
              if str_eq q.to_account_id k
              then some (credit b q.amount_cents fresh.credit_time)
              else if str_eq q.from_account_id k
              then some (debit a q.amount_cents fresh.debit_time)
              else T.account s k)
      unfolding moved debit credit
      account-moved s a b k payable = ground (
        arith,
        account-key T L s q.from_account_id a payable.found_source,
        account-key T L s q.to_account_id b payable.found_dest,
        L.account-put_account (T.put_account s (debit a q.amount_cents fresh.debit_time))
            (credit b q.amount_cents fresh.credit_time) k,
        L.account-put_account s (debit a q.amount_cents fresh.debit_time) k,
      )

      total-moved :
          (s : T.Accounts) (a b : LedgerAccount)
          → IsPayable T s q a b
          → total (moved s a b) ≡ total s
      unfolding moved debit credit
      total-moved s a b payable =
          let source = debit a q.amount_cents fresh.debit_time in
          let dest = credit b q.amount_cents fresh.credit_time in
          let s' = T.put_account s source in
          let e : total s' +ℤ a.balance_cents ≡ total s +ℤ source.balance_cents =
            total-put_account s source a
              (ground (arith, account-key T L s q.from_account_id a payable.found_source)) in
          let e' : total (moved s a b) +ℤ b.balance_cents ≡ total s' +ℤ dest.balance_cents =
            total-put_account s' dest b (
              ground (
                arith,
                account-key T L s q.from_account_id a payable.found_source,
                account-key T L s q.to_account_id b payable.found_dest,
                L.account-put_account s source b.account_id,
              )) in
          grind (int_laws, e, e')

      moved-IsSolvent :
          (s : T.Accounts) (a b : LedgerAccount)
          → IsPayable T s q a b
          → pos 0 ≤ℤ q.amount_cents
          → IsSolvent T s
          → IsSolvent T (moved s a b)
      unfolding debit credit
      moved-IsSolvent s a b payable positive h k c e = ground (
        arith,
        account-moved s a b k payable,
        h q.from_account_id a payable.found_source,
        h q.to_account_id b payable.found_dest,
        h k c,
        -ℤ_parts a.balance_cents q.amount_cents,
        +ℤ_parts b.balance_cents q.amount_cents,
      )

      -- A committed transfer takes the amount from the one account and gives it to the other, and
      -- leaves every other account as it was.
      pub committed_accounts :
          (s s' : Store T) (r : TransferResult) (k : String)
          → (c : IsCommitted T engine fresh q s s' r)
          → T.account s'.accounts k ≡ (
              if str_eq q.to_account_id k
              then some (credit c.dest q.amount_cents fresh.credit_time)
              else if str_eq q.from_account_id k
              then some (debit c.source q.amount_cents fresh.debit_time)
              else T.account s.accounts k)
      unfolding moved flush_accounts add_audits add_journal
      committed_accounts s s' r k c =
          rw c.store (account-moved s.accounts c.source c.dest k c.payable)

      pub committed_total :
          (s s' : Store T) (r : TransferResult)
          → IsCommitted T engine fresh q s s' r
          → total s'.accounts ≡ total s.accounts
      unfolding moved flush_accounts add_audits add_journal
      committed_total s s' r c = rw c.store (total-moved s.accounts c.source c.dest c.payable)

      pub committed-IsSolvent :
          (s s' : Store T) (r : TransferResult)
          → IsCommitted T engine fresh q s s' r
          → pos 0 ≤ℤ q.amount_cents
          → IsSolvent T s.accounts
          → IsSolvent T s'.accounts
      unfolding moved flush_accounts add_audits add_journal
      committed-IsSolvent s s' r c positive h =
          rw c.store (moved-IsSolvent s.accounts c.source c.dest c.payable positive h)
