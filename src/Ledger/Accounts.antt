-- ===== src/Ledger/Accounts.antt =====
-- packages/payops_core/ledger/accounts.py: the wallets of the known merchants, and the clearing
-- account of the platform, are created where they are missing.
use payops_intelligence.Prelude.{
  ℕ, none, some, List, [], ◌∷◌, ℤ, pos, String, str_eq, ◌<>◌, if◌then◌else◌,
}
use payops_intelligence.Ledger.Rows.{LedgerAccount}
use payops_intelligence.Ledger.Database.{Tables, Store}

abbrev pub platform_account : String
platform_account = "PLATFORM-clearing"

-- `_STARTING.get(merchant_id, 100_000)`
unfoldable pub starting : String → ℤ
starting m =
    if str_eq m "M101"
    then pos 1_000_000
    else if str_eq m "M102"
    then pos 5_000_000
    else if str_eq m "M201"
    then pos 2_000_000
    else if str_eq m "M305"
    then pos 250_000
    else if str_eq m "M410"
    then pos 1_500_000
    else pos 100_000

unfoldable pub wallet_id : String → String
wallet_id m = m <> "-wallet"

-- 2024-01-01T00:00:00 in seconds since 1970.
abbrev created : ℕ
created = 1_704_067_200

unfoldable pub platform_row : LedgerAccount
platform_row = record {
  account_id = platform_account;
  merchant_id = none;
  kind = "platform_clearing";
  currency = "INR";
  balance_cents = pos 0;
  version = 1;
  status = "active";
  created_at = created;
  updated_at = created;
}

unfoldable pub wallet_row : String → LedgerAccount
unfolding wallet_id starting
wallet_row m = record {
  account_id = wallet_id m;
  merchant_id = some m;
  kind = "merchant_wallet";
  currency = "INR";
  balance_cents = starting m;
  version = 1;
  status = "active";
  created_at = created;
  updated_at = created;
}

module _ (T : Tables) where
  -- `if session.get(...) is None: session.add(...)`
  unfoldable pub add_missing : LedgerAccount → T.Accounts → T.Accounts
  add_missing row s = elim (T.account s row.account_id) [
    | none ↦ T.put_account s row
    | some old ↦ s
  ]

  unfoldable pub seed_wallets : List String → T.Accounts → T.Accounts
  unfolding add_missing wallet_row
  seed_wallets [] s = s
  seed_wallets (m ∷ merchants) s = seed_wallets merchants (add_missing (wallet_row m) s)

  unfoldable pub seed_ledger_accounts : Store T → Store T
  unfolding seed_wallets platform_row
  seed_ledger_accounts s = record s {
    accounts = seed_wallets s.merchants (add_missing platform_row s.accounts);
  }

  unfoldable pub list_accounts : Store T → List LedgerAccount × Store T
  unfolding seed_ledger_accounts
  list_accounts s = let s' = seed_ledger_accounts s in (T.accounts s'.accounts, s')
