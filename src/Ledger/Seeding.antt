-- ===== src/Ledger/Seeding.antt =====
-- What `seed_ledger_accounts` does: it adds the missing accounts and leaves the others alone.
use payops_intelligence.Prelude.{
  ◌≡◌, refl, ◌≢◌, Option, none, some, List, [], ◌∷◌, pos, ◌≤ℤ◌, String, str_eq, str_eq_refl, eq_iff,
  arith, if◌then◌else◌,
}
use payops_intelligence.Prelude.Lists.{All}
use payops_intelligence.Ledger.Rows.{LedgerAccount}
use payops_intelligence.Ledger.Database.{Tables, IsLawful, Store}
use payops_intelligence.Ledger.Accounts.{
  platform_account, wallet_id, platform_row, wallet_row, add_missing, seed_wallets,
  seed_ledger_accounts,
}

-- No balance is negative.
abbrev pub IsSolvent : (T : Tables) → T.Accounts → Type 0
IsSolvent T s = (k : String) (a : LedgerAccount) → T.account s k ≡ some a → pos 0 ≤ℤ a.balance_cents

-- Every known merchant and the platform have an account.
abbrev pub IsSeeded : (T : Tables) → Store T → Type 0
IsSeeded T s =
    (T.account s.accounts platform_account ≢ none)
    × All (λ m. T.account s.accounts (wallet_id m) ≢ none) s.merchants

module _ (T : Tables) (L : IsLawful T) where
  account-add_missing :
      (row : LedgerAccount) (s : T.Accounts) (k : String)
      → T.account (add_missing T row s) k ≡ elim (T.account s k) [
        | some a ↦ some a
        | none ↦ if str_eq row.account_id k then some row else none
      ]
  unfolding add_missing
  account-add_missing row s k =
      ground (arith, L.account-put_account s row k, eq_iff row.account_id k)

  add_missing-kept :
      (row : LedgerAccount) (s : T.Accounts) (k : String) (a : LedgerAccount)
      → T.account s k ≡ some a
      → T.account (add_missing T row s) k ≡ some a
  add_missing-kept row s k a h = ground (arith, account-add_missing row s k)

  add_missing-found :
      (row : LedgerAccount) (s : T.Accounts) → T.account (add_missing T row s) row.account_id ≢ none
  add_missing-found row s =
      ground (arith, account-add_missing row s row.account_id, str_eq_refl row.account_id)

  put-IsSolvent :
      (s : T.Accounts) (a : LedgerAccount)
      → IsSolvent T s
      → pos 0 ≤ℤ a.balance_cents
      → IsSolvent T (T.put_account s a)
  put-IsSolvent s a h p k b e = ground (arith, L.account-put_account s a k, h k b)

  add_missing-IsSolvent :
      (row : LedgerAccount) (s : T.Accounts)
      → IsSolvent T s
      → pos 0 ≤ℤ row.balance_cents
      → IsSolvent T (add_missing T row s)
  add_missing-IsSolvent row s h p k b e = ground (arith, account-add_missing row s k, h k b)

  seed_wallets-kept :
      (merchants : List String) (s : T.Accounts) (k : String) (a : LedgerAccount)
      → T.account s k ≡ some a
      → T.account (seed_wallets T merchants s) k ≡ some a
  unfolding seed_wallets
  seed_wallets-kept [] s k a h = h
  seed_wallets-kept (m ∷ merchants) s k a h =
      seed_wallets-kept merchants _ k a (add_missing-kept (wallet_row m) s k a h)

  wallet_row_solvent : (m : String) → pos 0 ≤ℤ (wallet_row m).balance_cents
  unfolding wallet_row
  wallet_row_solvent m = ground arith

  seed_wallets-IsSolvent :
      (merchants : List String) (s : T.Accounts)
      → IsSolvent T s
      → IsSolvent T (seed_wallets T merchants s)
  unfolding seed_wallets
  seed_wallets-IsSolvent [] s h = h
  seed_wallets-IsSolvent (m ∷ merchants) s h =
      seed_wallets-IsSolvent merchants _
        (add_missing-IsSolvent (wallet_row m) s h (wallet_row_solvent m))

  pub seed-IsSolvent :
      (s : Store T) → IsSolvent T s.accounts → IsSolvent T (seed_ledger_accounts T s).accounts
  unfolding seed_ledger_accounts
  seed-IsSolvent s h =
      seed_wallets-IsSolvent s.merchants _
        (add_missing-IsSolvent platform_row s.accounts h (omega arith))

  some_of_ne_none : {A : Type 0} (o : Option A) → o ≢ none → (a : A) × (o ≡ some a)
  some_of_ne_none none h = absurd (h refl)
  some_of_ne_none (some a) h = (a, refl)

  seed_wallets-found :
      (merchants : List String) (s : T.Accounts)
      → All (λ m. T.account (seed_wallets T merchants s) (wallet_id m) ≢ none) merchants
  unfolding seed_wallets
  seed_wallets-found [] s = tt
  seed_wallets-found (m ∷ merchants) s = (
    λ gone.
        let (a, e) = some_of_ne_none _ (add_missing-found (wallet_row m) s) in
        cc (seed_wallets-kept merchants _ (wallet_id m) a e, gone),
    seed_wallets-found merchants _,
  )

  add_missing_idle :
      (row : LedgerAccount) (s : T.Accounts)
      → T.account s row.account_id ≢ none
      → add_missing T row s ≡ s
  unfolding add_missing
  add_missing_idle row s found = ground arith

  -- Where nothing is missing, seeding changes nothing.
  seed_wallets_idle :
      (merchants : List String) (s : T.Accounts)
      → All (λ m. T.account s (wallet_id m) ≢ none) merchants
      → seed_wallets T merchants s ≡ s
  unfolding seed_wallets
  seed_wallets_idle [] s h = refl
  seed_wallets_idle (m ∷ merchants) s (found, h) =
      rw (add_missing_idle (wallet_row m) s found) (seed_wallets_idle merchants s h)

  pub seed_ledger_accounts_idle : (s : Store T) → IsSeeded T s → seed_ledger_accounts T s ≡ s
  unfolding seed_ledger_accounts
  seed_ledger_accounts_idle s (platform, wallets) =
      rw (add_missing_idle platform_row s.accounts platform)
        (rw (seed_wallets_idle s.merchants s.accounts wallets))

  pub seed-IsSeeded : (s : Store T) → IsSeeded T (seed_ledger_accounts T s)
  unfolding seed_ledger_accounts
  seed-IsSeeded s =
      let first = add_missing T platform_row s.accounts in
      let (a, e) = some_of_ne_none _ (add_missing-found platform_row s.accounts) in
      (
        λ gone. cc (seed_wallets-kept s.merchants first platform_account a e, gone),
        seed_wallets-found s.merchants first,
      )

  -- On lawful tables seeding keeps every account that is there, gives every merchant and the
  -- platform one, and a second seeding changes nothing.
  pub seed_ledger_accounts_lem :
      (s : Store T)
      → let s' = seed_ledger_accounts T s in
        ((k : String) (a : LedgerAccount)
          → T.account s.accounts k ≡ some a
          → T.account s'.accounts k ≡ some a)
        × IsSeeded T s'
        × (seed_ledger_accounts T s' ≡ s')
  unfolding seed_ledger_accounts
  seed_ledger_accounts_lem s = (
    λ k a h. seed_wallets-kept s.merchants _ k a (add_missing-kept platform_row s.accounts k a h),
    seed-IsSeeded s,
    seed_ledger_accounts_idle (seed_ledger_accounts T s) (seed-IsSeeded s),
  )
