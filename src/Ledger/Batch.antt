-- ===== src/Ledger/Batch.antt =====
-- Any sequence of transfers, each with its own fresh names and times, on one database.
use payops_intelligence.Prelude.{
  ◌≡◌, sym, subst, String, refl, ◌∙◌, ◌≢◌, inl, inr, none, List, [], ◌∷◌, ap, arith,
}
use payops_intelligence.Prelude.Lists.{All, All-map}
use payops_intelligence.Ledger.Rows.{TransferResult}
use payops_intelligence.Ledger.Database.{Tables, IsLawful, Store, Engine}
use payops_intelligence.Ledger.Accounts.{platform_account, wallet_id, seed_ledger_accounts}
use payops_intelligence.Ledger.Transfer.{Request, Fresh}
use payops_intelligence.Ledger.Run.{
  Outcome, returned, value_error, database_error, run_ledger_transfer, flush_accounts, add_audits,
  add_journal,
}
use payops_intelligence.Ledger.Seeding.{IsSolvent, IsSeeded, seed_ledger_accounts_idle}
use payops_intelligence.Ledger.Outcomes.{IsCommitted}
use payops_intelligence.Ledger.Balances.{total, committed_accounts}
use payops_intelligence.Ledger.Safety.{
  Returns, Runs, run_ledger_transfer-Runs, run_ledger_transfer-IsSolvent, total-run_ledger_transfer,
}

module _ (T : Tables) (engine : Engine T) where
  unfoldable pub run_all : List (Fresh × Request) → Store T → Store T
  run_all [] s = s
  run_all ((fresh, q) ∷ calls) s = run_all calls (run_ledger_transfer T engine fresh q s).1

  module _ (L : IsLawful T) where
    -- Accounts are never removed.
    IsKept : Store T → Store T → Type 0
    IsKept s s' =
        (s'.merchants ≡ s.merchants)
        × ((k : String) → T.account s.accounts k ≢ none → T.account s'.accounts k ≢ none)

    IsSeeded-kept : (s s' : Store T) → IsKept s s' → IsSeeded T s → IsSeeded T s'
    unfolding IsKept
    IsSeeded-kept s s' kept seeded = (
      kept.1 platform_account seeded.0,
      subst (All (λ m. T.account s'.accounts (wallet_id m) ≢ none)) (sym kept.0)
          (All-map (λ m. kept.1 (wallet_id m)) s.merchants seeded.1),
    )

    committed-IsKept :
        (fresh : Fresh) (q : Request) (s s' : Store T) (r : TransferResult)
        → IsCommitted T engine fresh q s s' r
        → IsKept s s'
    unfolding IsKept flush_accounts add_audits add_journal
    committed-IsKept fresh q s s' r c = (
      ap (λ x. Store.merchants x) c.store,
      λ k found. ground (arith, committed_accounts T L engine fresh q s s' r k c),
    )

    same-IsKept : (s s' : Store T) → s' ≡ s → IsKept s s'
    unfolding IsKept
    same-IsKept s s' e = subst (IsKept s) (sym e) (refl, λ k found. found)

    returned-IsKept :
        (fresh : Fresh) (q : Request) (s s' : Store T) (r : TransferResult)
        → Returns T engine fresh q s s' r
        → seed_ledger_accounts T s ≡ s
        → IsKept s s'
    unfolding IsKept
    returned-IsKept fresh q s s' r (positive, inl c) idle =
        subst (λ x. IsKept x s') idle (committed-IsKept fresh q _ s' r c)
    returned-IsKept fresh q s s' r (positive, inr b) idle = (
      b.merchants ∙ ap (λ x. Store.merchants x) idle,
      λ k found.
          subst (λ x. T.account x k ≢ none) (sym (b.accounts ∙ ap (λ x. Store.accounts x) idle))
            found,
    )

    run-IsKept :
        (fresh : Fresh) (q : Request) (s : Store T) (o : Outcome × Store T)
        → Runs T engine fresh q s o
        → seed_ledger_accounts T s ≡ s
        → IsKept s o.1
    unfolding IsKept
    run-IsKept fresh q s (returned r, s') h idle = returned-IsKept fresh q s s' r h idle
    run-IsKept fresh q s (value_error text, s') e idle = same-IsKept s s' e
    run-IsKept fresh q s (database_error, s') (inl e) idle = same-IsKept s s' e
    run-IsKept fresh q s (database_error, s') (inr (inl e)) idle = same-IsKept s s' (e ∙ idle)
    run-IsKept fresh q s (database_error, s') (inr (inr (r, h))) idle =
        returned-IsKept fresh q s s' r h idle

    total_same :
        (fresh : Fresh) (q : Request) (s : Store T)
        → seed_ledger_accounts T s ≡ s
        → total T (run_ledger_transfer T engine fresh q s).1.accounts ≡ total T s.accounts
    total_same fresh q s idle = elim (total-run_ledger_transfer T engine fresh q L s) [
      | inl e ↦ e
      | inr e ↦ e ∙ ap (λ x. total T (Store.accounts x)) idle
    ]

    -- On lawful tables where the platform and every merchant have their accounts and no balance is
    -- negative, any sequence of calls, whatever the outcomes, leaves this so and leaves the sum of
    -- all balances as it was.
    pub run_all_safe :
        (calls : List (Fresh × Request)) (s : Store T)
        → IsSeeded T s
        → IsSolvent T s.accounts
        → let s' = run_all calls s in
          IsSeeded T s' × IsSolvent T s'.accounts × (total T s'.accounts ≡ total T s.accounts)
    unfolding run_all
    run_all_safe [] s seeded solvent = (seeded, solvent, refl)
    run_all_safe ((fresh, q) ∷ calls) s seeded solvent =
        let idle = seed_ledger_accounts_idle T L s seeded in
        let s' = (run_ledger_transfer T engine fresh q s).1 in
        let kept = run-IsKept fresh q s _ (run_ledger_transfer-Runs T engine fresh q s) idle in
        let rest =
          run_all_safe calls s' (IsSeeded-kept s s' kept seeded)
            (run_ledger_transfer-IsSolvent T engine fresh q L s solvent) in
        (rest.0, rest.1, rest.2 ∙ total_same fresh q s idle)
