-- ===== src/Ledger/Checks.antt =====
-- `_lock_and_check` and `_assert_after`: when they let a transfer pass, and that they write nothing.
use payops_intelligence.Prelude.{
  ℕ, sym, ◌≡◌, ◌∙◌, true, false, some, List, [], ◌∷◌, ℤ, pos, ◌+ℤ◌, ◌-ℤ◌, ◌≤ℤ◌, String, str_eq,
  eq_iff, arith,
}
use payops_intelligence.Prelude.{+ℤ_parts, -ℤ_parts}
use payops_intelligence.Ledger.Rows.{LedgerAccount}
use payops_intelligence.Ledger.Database.{Tables, IsLawful, find_account}
use payops_intelligence.Ledger.Monad.{Error, inconsistent, Result, ok, err, Work}
use payops_intelligence.Ledger.Transfer.{Request, debit, credit, lock_and_check, assert_after}

-- What the checks ask of the two accounts.
pub record IsPayable (T : Tables) (s : T.Accounts) (q : Request) (a b : LedgerAccount)
    : Type 0 where
  pub distinct : str_eq q.from_account_id q.to_account_id ≡ false
  pub found_source : T.account s q.from_account_id ≡ some a
  pub found_dest : T.account s q.to_account_id ≡ some b
  pub active_source : str_eq a.status "active" ≡ true
  pub active_dest : str_eq b.status "active" ≡ true
  pub same_currency : str_eq a.currency b.currency ≡ true
  pub covered : q.amount_cents ≤ℤ a.balance_cents

-- A `ConsistencyError`.
abbrev pub IsRefusal : Error → Type 0
IsRefusal (inconsistent text) = Unit
IsRefusal _ = ⊥

module _ (T : Tables) (q : Request) (w : Work T) where
  -- How the checks end: with two payable accounts and their balances noted, or with a
  -- consistency error and nothing changed.
  abbrev pub Checks : Result (LedgerAccount × LedgerAccount) × Work T → Type 0
  Checks (ok (a, b), w') =
      IsPayable T w.view.accounts q a b
      × (w' ≡ record w { before_source = a.balance_cents; before_dest = b.balance_cents })
  Checks (err e, w') = IsRefusal e × (w' ≡ w)

  pub lock_and_check-Checks :
      Checks (lock_and_check T q.from_account_id q.to_account_id q.amount_cents w)
  unfolding lock_and_check
  lock_and_check-Checks = ground arith

  -- Two payable accounts pass the checks.
  pub lock_and_check-ok :
      (a b : LedgerAccount)
      → IsPayable T w.view.accounts q a b
      → lock_and_check T q.from_account_id q.to_account_id q.amount_cents w
        ≡ (ok (a, b), record w { before_source = a.balance_cents; before_dest = b.balance_cents })
  unfolding lock_and_check
  lock_and_check-ok a b h = ground arith

  -- After a covered debit and a credit, `_assert_after` passes if the destination is not negative.
  pub assert_after-ok :
      (a b : LedgerAccount) (t u : ℕ)
      → q.amount_cents ≤ℤ a.balance_cents
      → pos 0 ≤ℤ b.balance_cents +ℤ q.amount_cents
      → assert_after T
          (debit a q.amount_cents t)
          (credit b q.amount_cents u)
          a.balance_cents
          b.balance_cents
          q.amount_cents
          w
        ≡ (ok tt, w)
  unfolding assert_after debit credit
  assert_after-ok a b t u covered h = ground (
    arith,
    -ℤ_parts a.balance_cents q.amount_cents,
    +ℤ_parts b.balance_cents q.amount_cents,
    +ℤ_parts (a.balance_cents -ℤ q.amount_cents) (b.balance_cents +ℤ q.amount_cents),
    +ℤ_parts a.balance_cents b.balance_cents,
  )

  -- It writes nothing, and raises consistency errors only.
  abbrev pub Asserts : Result (Unit {0}) × Work T → Type 0
  Asserts (ok u, w') = w' ≡ w
  Asserts (err e, w') = IsRefusal e × (w' ≡ w)

  pub assert_after-Asserts :
      (a b : LedgerAccount) (x y amount : ℤ) → Asserts (assert_after T a b x y amount w)
  unfolding assert_after
  assert_after-Asserts a b x y amount = ground arith

find_account-key :
    (rows : List LedgerAccount) (k : String) (a : LedgerAccount)
    → find_account rows k ≡ some a
    → a.account_id ≡ k
find_account-key [] k a h = cc
find_account-key (b ∷ rows) k a h = ground (arith, eq_iff b.account_id k, find_account-key rows k a)

-- A row is found under its own primary key.
pub account-key :
    (T : Tables) (L : IsLawful T) (s : T.Accounts) (k : String) (a : LedgerAccount)
    → T.account s k ≡ some a
    → a.account_id ≡ k
account-key T L s k a h = find_account-key (T.accounts s) k a (sym (L.account-accounts s k) ∙ h)
