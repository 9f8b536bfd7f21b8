-- ===== src/Ledger/Reads/RoundTrip.antt =====
-- What a call has returned can be fetched again by the transfer's identifier.
use payops_intelligence.Prelude.{
  ◌≡◌, pos, leb_ℤ, ℤ, refl, ◌⊎◌, inl, inr, Option, none, some, String, str_eq_refl, arith,
  Bool-cases, false, ◌++◌, ◌∷◌,
}
use payops_intelligence.Ledger.Rows.{LedgerAccount, TransferResult}
use payops_intelligence.Ledger.Database.{Tables, IsLawful, Store, Engine}
use payops_intelligence.Ledger.Accounts.{seed_ledger_accounts}
use payops_intelligence.Ledger.Monad.{
  Error, injected, inconsistent, database, Result, ok, err, Work,
}
use payops_intelligence.Ledger.Transfer.{Request, op, credit, debit, failure_point, Fresh, result}
use payops_intelligence.Ledger.Run.{
  Outcome, guarded, add_journal, add_audits, flush_accounts, run_ledger_transfer, account_currency,
  transfer_row, returned, value_error, database_error, load_audits, transfer_id, isolation, reason,
  settle, roll_back, attempted, if_answered, persist_rollback,
}
use payops_intelligence.Ledger.Body.{Ends, body-Ends, noted, written}
use payops_intelligence.Ledger.Reads.{operations_of, [], TransferOperation, List, get_transfer}

module _ (T : Tables) (L : IsLawful T) (engine : Engine T) (fresh : Fresh) (q : Request) where
  -- The result as it is stored: the operations are told from the status.
  abbrev pub stored : TransferResult → TransferResult
  stored r = record r { operations = operations_of r.status }

  -- A rollback whose record, as it would have been fetched, the database has refused.
  abbrev pub IsRefused : TransferResult → Store T → Type 0
  IsRefused r s' =
      (r.status ≡ "rolled_back")
      × (get_transfer T engine s' r.transfer_id ≡ none)
      × (attempt : Store T) × (get_transfer T engine attempt r.transfer_id
          ≡ some (record (stored r) { audit_events = load_audits T attempt r.transfer_id }))
      × (attempt.accounts ≡ s'.accounts)
      × (engine.accepts attempt ≡ false)

  -- The returned result is stored, or it reports a rollback that was refused.
  abbrev pub IsFetched : Outcome × Store T → Type 0
  IsFetched (returned r, s') =
      (get_transfer T engine s' r.transfer_id ≡ some (stored r)) ⊎ IsRefused r s'
  IsFetched (value_error text, s') = Unit
  IsFetched (database_error, s') = Unit

  -- A stored row is shown as the result that was returned with it.
  get_transfer-row :
      (s' : Store T) (currency status : String) (failure : Option String) (bf bt af at : ℤ)
      → (ops : List TransferOperation)
      → T.transfer s'.transfers (transfer_id T engine fresh)
        ≡ some (transfer_row T engine fresh q currency status failure bf bt af at)
      → get_transfer T engine s' (transfer_id T engine fresh)
        ≡ some (
            stored (
              result
                (transfer_id T engine fresh)
                status
                q
                (isolation T engine fresh)
                (reason T engine fresh)
                failure
                bf
                bt
                af
                at
                ops
                (load_audits T s' (transfer_id T engine fresh))))
  unfolding get_transfer transfer_row result isolation reason
  get_transfer-row s' currency status failure bf bt af at ops h = ground arith

  attempted-transfer :
      (e : Error) (bf bt af at : ℤ) (s : Store T)
      → T.transfer s.transfers (transfer_id T engine fresh) ≡ none
      → T.transfer
          (attempted T engine fresh q e bf bt af at s).transfers
          (transfer_id T engine fresh)
        ≡ some (
            transfer_row T engine fresh q
              (account_currency T s q.from_account_id)
              "rolled_back"
              (some (failure_point e))
              bf
              bt
              af
              at)
  unfolding attempted transfer_row
  attempted-transfer e bf bt af at s unused = ground (
    arith,
    str_eq_refl (transfer_id T engine fresh),
    L.transfer-add_transfer s.transfers
        (transfer_row T engine fresh q (account_currency T s q.from_account_id) "rolled_back"
          (some (failure_point e)) bf bt af at)
        (transfer_id T engine fresh) unused,
  )

  attempted_accounts :
      (e : Error) (bf bt af at : ℤ) (s : Store T)
      → (attempted T engine fresh q e bf bt af at s).accounts ≡ s.accounts
  unfolding attempted
  attempted_accounts e bf bt af at s = refl

  missing :
      (s' : Store T)
      → T.transfer s'.transfers (transfer_id T engine fresh) ≡ none
      → get_transfer T engine s' (transfer_id T engine fresh) ≡ none
  unfolding get_transfer
  missing s' h = ground arith

  written-transfer :
      (s : Store T) (a b : LedgerAccount)
      → T.transfer s.transfers (transfer_id T engine fresh) ≡ none
      → T.transfer
          (written T engine fresh q (noted T engine fresh q s a b) a b).transfers
          (transfer_id T engine fresh)
        ≡ some (
            transfer_row T engine fresh q a.currency "committed" none a.balance_cents
              b.balance_cents
              (debit a q.amount_cents fresh.debit_time).balance_cents
              (credit b q.amount_cents fresh.credit_time).balance_cents)
  unfolding transfer_row flush_accounts add_audits add_journal debit credit
  written-transfer s a b unused = ground (
    arith,
    str_eq_refl (transfer_id T engine fresh),
    L.transfer-add_transfer s.transfers
        (transfer_row T engine fresh q a.currency "committed" none a.balance_cents b.balance_cents
          (debit a q.amount_cents fresh.debit_time).balance_cents
          (credit b q.amount_cents fresh.credit_time).balance_cents)
        (transfer_id T engine fresh) unused,
  )

  if_answered-IsFetched :
      (r : TransferResult) (s' : Store T)
      → IsFetched (returned r, s')
      → IsFetched (if_answered T engine fresh r s', s')
  if_answered-IsFetched r s' h = elim (Bool-cases (engine.answers s')) [
    | inl e ↦ rw e h
    | inr e ↦ rw e tt
  ]

  -- The attempt is stored and found, or it is refused and would have been found.
  persist_rollback-IsFetched :
      (e : Error) (bf bt af at : ℤ) (ops : List TransferOperation) (s : Store T)
      → T.transfer s.transfers (transfer_id T engine fresh) ≡ none
      → let s' = persist_rollback T engine fresh q e bf bt af at s in
        IsFetched (
          returned (
              result
                (transfer_id T engine fresh)
                "rolled_back"
                q
                (isolation T engine fresh)
                (reason T engine fresh)
                (some (failure_point e))
                bf
                bt
                af
                at
                ops
                (load_audits T s' (transfer_id T engine fresh))),
          s',
        )
  unfolding persist_rollback result
  persist_rollback-IsFetched e bf bt af at ops s unused =
      let attempt = attempted T engine fresh q e bf bt af at s in
      let row = attempted-transfer e bf bt af at s unused in
      elim (Bool-cases (engine.accepts attempt)) [
        | inl accepted ↦ rw accepted (
            inl (
              get_transfer-row attempt _ "rolled_back" (some (failure_point e)) bf bt af at ops
                row))
        | inr refused ↦ rw refused (
            inr (
              refl,
              missing s unused,
              attempt,
              get_transfer-row attempt _ "rolled_back" (some (failure_point e)) bf bt af at ops row,
              attempted_accounts e bf bt af at s,
              refused,
            ))
      ]

  roll_back-IsFetched :
      (e : Error) (w : Work T) (s : Store T)
      → T.transfer s.transfers (transfer_id T engine fresh) ≡ none
      → IsFetched (roll_back T engine fresh q e w s)
  unfolding roll_back
  roll_back-IsFetched e w s unused = elim (Bool-cases (engine.answers s)) [
    | inl answered ↦ rw answered (
        if_answered-IsFetched _ _ (
          persist_rollback-IsFetched e _ _ _ _
            (w.operations ++ op "ROLLBACK" "rolled_back" none none ∷ []) s unused))
    | inr silent ↦ rw silent tt
  ]

  settle-IsFetched :
      (s : Store T) (r : Result (LedgerAccount × LedgerAccount) × Work T)
      → T.transfer s.transfers (transfer_id T engine fresh) ≡ none
      → Ends T engine fresh q s r
      → IsFetched (settle T engine fresh q s r)
  unfolding settle
  settle-IsFetched s (ok (source, dest), w) unused (a, b, payable, es, ed, ew, eb, ec, h) =
      if_answered-IsFetched _ w.view (
        inl (
          get_transfer-row w.view a.currency "committed" none _ _ _ _ []
            (rw (ew, es, ed, eb, ec) (written-transfer s a b unused))))
  settle-IsFetched s (err database, w) unused h = tt
  settle-IsFetched s (err (injected point), w) unused h =
      roll_back-IsFetched (injected point) w s unused
  settle-IsFetched s (err (inconsistent text), w) unused h =
      roll_back-IsFetched (inconsistent text) w s unused

  guarded-IsFetched :
      (s : Store T) (unknown : Option String)
      → T.transfer s.transfers (transfer_id T engine fresh) ≡ none
      → IsFetched (guarded T engine fresh q s unknown)
  unfolding guarded
  guarded-IsFetched s (some text) unused = tt
  guarded-IsFetched s none unused = elim (Bool-cases (leb_ℤ q.amount_cents (pos 0))) [
    | inl zero_or_less ↦ rw zero_or_less tt
    | inr positive ↦ rw positive (elim (Bool-cases (engine.accepts (seed_ledger_accounts T s))) [
      | inl accepted ↦ rw accepted (
          settle-IsFetched (seed_ledger_accounts T s) _ unused
            (body-Ends T engine fresh q (seed_ledger_accounts T s)))
      | inr refused ↦ rw refused tt
    ])
  ]

  -- On lawful tables a returned result can be fetched by its identifier, if that was unused: every
  -- field is as returned but the operations, which are told from the status. Only a rollback is not
  -- found, where the database has refused a store with the same accounts and with its record, from
  -- which it could have been fetched.
  pub get_transfer-run_ledger_transfer :
      (s : Store T)
      → T.transfer s.transfers (transfer_id T engine fresh) ≡ none
      → IsFetched (run_ledger_transfer T engine fresh q s)
  unfolding run_ledger_transfer
  get_transfer-run_ledger_transfer s unused = guarded-IsFetched s _ unused
