-- ===== src/Tests/Ledger.antt =====
-- The ledger on concrete tables, and its theorems at concrete calls.
use payops_intelligence.Prelude.{
  ◌≡◌, negsuc, refl, ◌⊎◌, true, none, some, List, [], ◌∷◌, pos, String, arith, Option, ◌+ℤ◌, ◌-ℤ◌,
}
use payops_intelligence.Ledger.Rows.{LedgerAccount, TransferOperation, TransferResult}
use payops_intelligence.Ledger.Database.{Store, Engine}
use payops_intelligence.Ledger.Database.Memory.{memory, memory-IsLawful}
use payops_intelligence.Ledger.Accounts.{wallet_id, seed_ledger_accounts}
use payops_intelligence.Ledger.Transfer.{Request, op, isolation_for, result, Fresh}
use payops_intelligence.Ledger.Run.{unknown_point, load_audits, Outcome, run_ledger_transfer}
use payops_intelligence.Ledger.Seeding.{IsSolvent, IsSeeded}
use payops_intelligence.Ledger.Decisions.{
  Reports, IsReady, run_ledger_transfer_commits, run_ledger_transfer_injects,
}
use payops_intelligence.Ledger.Balances.{total}
use payops_intelligence.Ledger.Safety.{
  Transferred, run_ledger_transfer-Transferred, run_ledger_transfer-IsSolvent,
  total-run_ledger_transfer,
}
use payops_intelligence.Ledger.Batch.{run_all, run_all_safe}
use payops_intelligence.Ledger.Reads.RoundTrip.{IsFetched, get_transfer-run_ledger_transfer}

abbrev engine : Engine memory
engine = record { dialect = "sqlite"; accepts = λ s. true; answers = λ s. true }

abbrev fresh : Fresh
fresh = record {
  transfer_hex = "0a";
  debit_hex = "0b";
  credit_hex = "0c";
  audit_hex = λ n. "0d";
  debit_time = 5;
  credit_time = 6;
  write_time = 7;
}

abbrev wallet : String → String → LedgerAccount
wallet id merchant = record {
  account_id = id;
  merchant_id = some merchant;
  kind = "merchant_wallet";
  currency = "INR";
  balance_cents = pos 500;
  version = 1;
  status = "active";
  created_at = 1;
  updated_at = 1;
}

abbrev platform : LedgerAccount
platform = record (wallet "PLATFORM-clearing" "") {
  merchant_id = none;
  kind = "platform_clearing";
  balance_cents = pos 0;
}

abbrev store : Store memory
store = record {
  merchants = "M1" ∷ "M2" ∷ [];
  accounts = wallet "M1-wallet" "M1" ∷ wallet "M2-wallet" "M2" ∷ platform ∷ [];
  transfers = [];
  entries = [];
  audits = [];
}

-- The same merchants before any account has been made.
abbrev unseeded : Store memory
unseeded = record store { accounts = [] }

abbrev request : Option String → Request
request fail_at = record {
  from_account_id = "M1-wallet";
  to_account_id = "M2-wallet";
  amount_cents = pos 120;
  fail_at = fail_at;
}

abbrev run : Option String → Outcome × Store memory
run fail_at = run_ledger_transfer memory engine fresh (request fail_at) store

committed : Reports "committed" none (run none).0
unfolding run_ledger_transfer unknown_point ◌-ℤ◌ ◌+ℤ◌
committed = (refl, refl)

moved : total memory (run none).1.accounts ≡ pos 1000
unfolding run_ledger_transfer unknown_point total ◌+ℤ◌ ◌-ℤ◌
moved = refl

rolled_back : Reports "rolled_back" (some "after_ledger") (run (some "after_ledger")).0
unfolding run_ledger_transfer unknown_point ◌-ℤ◌ ◌+ℤ◌
rolled_back = (refl, refl)

store-IsSolvent : IsSolvent memory store.accounts
store-IsSolvent k a h = ground arith

store-IsSeeded : IsSeeded memory store
unfolding wallet_id
store-IsSeeded = (λ e. cc, (λ e. cc, (λ e. cc, tt)))

ready :
    (fail_at : Option String)
    → IsReady memory engine fresh
        (request fail_at)
        store
        (wallet "M1-wallet" "M1")
        (wallet "M2-wallet" "M2")
unfolding seed_ledger_accounts
ready fail_at = record {
  positive = omega arith;
  seeding = refl;
  payable = record {
    distinct = refl;
    found_source = refl;
    found_dest = refl;
    active_source = refl;
    active_dest = refl;
    same_currency = refl;
    covered = omega arith;
  };
  solvent = omega arith;
  answered = λ t. refl;
}

abbrev done_operations : List TransferOperation
done_operations =
    op "BEGIN" "started" none none
    ∷ op "debit" "applied" (some "M1-wallet") (some (negsuc 119))
    ∷ op "credit" "applied" (some "M2-wallet") (some (pos 120))
    ∷ op "update ledger" "applied" none none
    ∷ op "COMMIT" "committed" none none
    ∷ []

abbrev done : TransferResult
done =
    result "txn-0a" "committed" (request none) "IMMEDIATE" (isolation_for "sqlite").1 none (pos 500)
      (pos 500) (pos 380) (pos 620) done_operations (load_audits memory (run none).1 "txn-0a")

run_ledger_transfer-Transferred_example :
    Transferred memory engine fresh (request none) memory-IsLawful store (run none).1 done
unfolding run_ledger_transfer unknown_point ◌-ℤ◌ ◌+ℤ◌
run_ledger_transfer-Transferred_example =
    run_ledger_transfer-Transferred memory engine fresh (request none) memory-IsLawful store
      (run none).1 done refl refl

run_ledger_transfer-IsSolvent_example : IsSolvent memory (run none).1.accounts
run_ledger_transfer-IsSolvent_example =
    run_ledger_transfer-IsSolvent memory engine fresh (request none) memory-IsLawful store
      store-IsSolvent

total-run_ledger_transfer_example :
    let s' = (run none).1 in
    (total memory s'.accounts ≡ total memory store.accounts)
    ⊎ (total memory s'.accounts ≡ total memory (seed_ledger_accounts memory store).accounts)
total-run_ledger_transfer_example =
    total-run_ledger_transfer memory engine fresh (request none) memory-IsLawful store

run_ledger_transfer_commits_example : Reports "committed" none (run none).0
run_ledger_transfer_commits_example =
    run_ledger_transfer_commits memory engine fresh (request none) store (wallet "M1-wallet" "M1")
      (wallet "M2-wallet" "M2") (ready none) refl refl

run_ledger_transfer_injects_example :
    Reports "rolled_back" (some "before_commit") (run (some "before_commit")).0
run_ledger_transfer_injects_example =
    run_ledger_transfer_injects memory engine fresh (request (some "before_commit")) store
      (wallet "M1-wallet" "M1") (wallet "M2-wallet" "M2") "before_commit"
      (ready (some "before_commit")) refl refl

abbrev calls : List (Fresh × Request)
calls = (fresh, request none) ∷ (fresh, request (some "after_debit")) ∷ []

run_all_safe_example :
    let s' = run_all memory engine calls store in
    IsSeeded memory s'
    × IsSolvent memory s'.accounts
    × (total memory s'.accounts ≡ total memory store.accounts)
run_all_safe_example =
    run_all_safe memory engine memory-IsLawful calls store store-IsSeeded store-IsSolvent

get_transfer-run_ledger_transfer_example :
    IsFetched memory memory-IsLawful engine fresh (request none) (run none)
get_transfer-run_ledger_transfer_example =
    get_transfer-run_ledger_transfer memory memory-IsLawful engine fresh (request none) store refl
