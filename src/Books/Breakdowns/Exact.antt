-- ===== src/Books/Breakdowns/Exact.antt =====
-- What the breakdown by method says of the payments on record.
use payops_intelligence.Prelude.{
  ℕ, ◌+◌, ◌≡◌, refl, sym, ap, ◌∙◌, Bool, true, false, some, List, [], ◌∷◌, String, str_eq,
  str_eq_refl, eq_of_str_eq, filter, length, arith, ◌&&◌, any, All, All-map,
}
use payops_intelligence.Prelude.Sort.{sort_by}
use payops_intelligence.Prelude.Sort.Laws.{
  IsKeyTest, IsAscending, sort_by-IsAscending, str_le_total,
}
use payops_intelligence.Webhooks.Rows.{Payment}
use payops_intelligence.Books.Rows.{Books, AnalyticsRequest, MethodCounts, by_method}
use payops_intelligence.Books.Integrity.{counted}
use payops_intelligence.Books.Metrics.{
  PaymentCounts, payment_predicates, counts_within, payment_counts, request_counts, rate_result,
}
use payops_intelligence.Books.Breakdowns.{
  request_payments, same_status, method_status, status_rows, bucket_le, total_of, grouped_methods,
  method_breakdown, raise_bucket, raise_buckets,
}
use payops_intelligence.Books.Breakdowns.Sizes.{weigh, weigh-group_by, filter-filter, counted_alike}
use payops_intelligence.Books.Breakdowns.Order.{All-sort_by, any-sort_by, AreApart-sort_by}
use payops_intelligence.Books.Breakdowns.Methods.{
  is_method, IsTally, tally_of, wanted_row, tally_of-raise_buckets, AreApart,
  AreApart-raise_buckets, AreApart-tally_of,
}

both_true : (a b : Bool) → (a && b) ≡ true → (a ≡ true) × (b ≡ true)
both_true a b h = ground arith

and_assoc : (a b c : Bool) → (a && (b && c)) ≡ ((a && b) && c)
and_assoc a b c = ground arith

same_status-IsKeyTest : IsKeyTest same_status
same_status-IsKeyTest = record {
  refl_lem = λ (m, s). ground (arith, str_eq_refl m, str_eq_refl s);
  eq_of_same = λ (m, s) (m', s') h.
      let parts = both_true (str_eq m m') (str_eq s s') h in
      ap (λ m. (m, s)) (eq_of_str_eq m m' parts.0) ∙ ap (λ s. (m', s)) (eq_of_str_eq s s' parts.1);
}

total-IsTally : IsTally (λ b. b.total) (λ status. true)
total-IsTally = record { starts = λ m. refl; adds = λ b status count. refl }

succeeded-IsTally : IsTally (λ b. b.succeeded) (λ status. str_eq status "succeeded")
succeeded-IsTally = record { starts = λ m. refl; adds = λ b status count. refl }

failed-IsTally : IsTally (λ b. b.failed) (λ status. str_eq status "failed")
failed-IsTally = record { starts = λ m. refl; adds = λ b status count. refl }

module _ (request : AnalyticsRequest) (books : Books) where
  -- The payments of the request that use the method.
  abbrev uses : String → Payment → Bool
  uses m p = payment_predicates request request.window request.merchant_id p && str_eq p.method_id m

  abbrev pub counts_of : String → PaymentCounts
  counts_of m = counts_within (uses m) books.payments

  tally_of-grouped_methods :
      (tally : MethodCounts → ℕ) (wants : String → Bool)
      → IsTally tally wants
      → (m : String)
      → tally_of tally m (grouped_methods (request_payments request books))
        ≡ counted (λ p. uses m p && wants p.status) books.payments
  tally_of-grouped_methods tally wants rule m =
      let payments = request_payments request books in
      let passes = payment_predicates request request.window request.merchant_id in
      let sizes =
        weigh-group_by same_status method_status (wanted_row wants m) same_status-IsKeyTest
          payments in
      let both = ap length (
        filter-filter passes (λ (p : Payment). wanted_row wants m (method_status p))
          books.payments) in
      let regrouped =
        counted_alike (λ p. passes p && wanted_row wants m (method_status p))
          (λ p. uses m p && wants p.status)
          (λ p. and_assoc (passes p) (str_eq p.method_id m) (wants p.status)) books.payments in
      omega (
        arith,
        tally_of-raise_buckets tally wants m rule (status_rows payments) [],
        sizes,
        both,
        regrouped,
      )

All-three {ℓ} :
    {A : Type ℓ} (P Q R S : A → Type 0)
    → ((x : A) → P x → Q x → R x → S x)
    → (xs : List A) → All P xs
    → All Q xs
    → All R xs
    → All S xs
All-three P Q R S f [] hp hq hr = tt
All-three P Q R S f (x ∷ xs) hp hq hr = (f x hp.0 hq.0 hr.0, All-three P Q R S f xs hp.1 hq.1 hr.1)

same_counts :
    {t t' s s' f f' : ℕ}
    → t ≡ t'
    → s ≡ s'
    → f ≡ f'
    → Path PaymentCounts
        (record { total = t; succeeded = s; failed = f })
        (record { total = t'; succeeded = s'; failed = f' })
same_counts ht hs hf = cc

length-filter-true {ℓ} : {A : Type ℓ} (xs : List A) → length (filter (λ x. true) xs) ≡ length xs
length-filter-true [] = refl
length-filter-true (x ∷ xs) = omega (arith, length-filter-true xs)

and_true : (b : Bool) → (b && true) ≡ b
and_true b = ground arith

-- The total of all buckets is the number of rows.
total_of-raise_bucket :
    (method status : String) (count : ℕ) (buckets : List MethodCounts)
    → total_of (raise_bucket method status count buckets) ≡ total_of buckets + count
total_of-raise_bucket method status count [] = omega arith
total_of-raise_bucket method status count (bucket ∷ buckets) =
    ground (arith, total_of-raise_bucket method status count buckets)

total_of-raise_buckets :
    (rows : List ((String × String) × ℕ)) (buckets : List MethodCounts)
    → total_of (raise_buckets rows buckets) ≡ total_of buckets + weigh (λ k. true) rows
total_of-raise_buckets [] buckets = omega arith
total_of-raise_buckets (((method, status), count) ∷ rows) buckets = omega (
  arith,
  total_of-raise_buckets rows (raise_bucket method status count buckets),
  total_of-raise_bucket method status count buckets,
)

tally_of-none :
    (tally : MethodCounts → ℕ) (m : String) (buckets : List MethodCounts)
    → any (is_method m) buckets ≡ false
    → tally_of tally m buckets ≡ 0
tally_of-none tally m [] h = refl
tally_of-none tally m (bucket ∷ buckets) h = ground (arith, tally_of-none tally m buckets)

module _ (request : AnalyticsRequest) (books : Books) where
  -- Each bucket has the counts of its method, a method with a payment has a bucket, and the buckets
  -- are in the order of their methods, which differ.
  pub record IsExact (buckets : List MethodCounts) : Type 0 where
    pub each :
        All
          (λ (b : MethodCounts).
            Path PaymentCounts
              (record { total = b.total; succeeded = b.succeeded; failed = b.failed })
              (counts_of request books b.method_id))
          buckets
    pub ordered : IsAscending bucket_le buckets
    pub apart : AreApart buckets
    pub whole :
        (m : String) → any (is_method m) buckets ≡ false → (counts_of request books m).total ≡ 0

  abbrev IsExactFor : MethodCounts → Type 0
  IsExactFor b =
      Path PaymentCounts (record { total = b.total; succeeded = b.succeeded; failed = b.failed })
        (counts_of request books b.method_id)

  counted_bucket :
      (tally : MethodCounts → ℕ) (wants : String → Bool)
      → IsTally tally wants
      → All
          (λ (b : MethodCounts).
            tally b
            ≡ counted (λ p. uses request books b.method_id p && wants p.status) books.payments)
          (grouped_methods (request_payments request books))
  counted_bucket tally wants rule =
      let grouped = grouped_methods (request_payments request books) in
      All-map
        (λ (b : MethodCounts) h.
          h ∙ tally_of-grouped_methods request books tally wants rule b.method_id)
        grouped
        (AreApart-tally_of tally grouped
          (AreApart-raise_buckets (status_rows (request_payments request books)) [] tt))

  every_total :
      (m : String)
      → counted (λ p. uses request books m p && true) books.payments
        ≡ counted (uses request books m) books.payments
  every_total m =
      counted_alike (λ p. uses request books m p && true) (uses request books m)
        (λ p. and_true (uses request books m p)) books.payments

  grouped-AreExact : All IsExactFor (grouped_methods (request_payments request books))
  grouped-AreExact =
      All-three _ _ _ IsExactFor
        (λ b total succeeded failed. same_counts (total ∙ every_total b.method_id) succeeded failed)
        (grouped_methods (request_payments request books))
        (counted_bucket (λ b. b.total) (λ status. true) total-IsTally)
        (counted_bucket (λ b. b.succeeded) (λ status. str_eq status "succeeded") succeeded-IsTally)
        (counted_bucket (λ b. b.failed) (λ status. str_eq status "failed") failed-IsTally)

  grouped-whole :
      (m : String)
      → any (is_method m) (grouped_methods (request_payments request books)) ≡ false
      → (counts_of request books m).total ≡ 0
  grouped-whole m h = omega (
    arith,
    tally_of-none (λ b. b.total) m (grouped_methods (request_payments request books)) h,
    tally_of-grouped_methods request books (λ b. b.total) (λ status. true) total-IsTally m,
    every_total m,
  )

  total_of-grouped_methods :
      total_of (grouped_methods (request_payments request books))
      ≡ (request_counts request books).total
  unfolding payment_counts
  total_of-grouped_methods =
      let payments = request_payments request books in
      omega (
        arith,
        total_of-raise_buckets (status_rows payments) [],
        weigh-group_by same_status method_status (λ k. true) same_status-IsKeyTest payments,
        length-filter-true payments,
      )

-- The breakdown by method has, in the order of the methods, at most one entry for a method, and one
-- where a payment of the request has the method; an entry's counts are those of its method's
-- payments, and the sample size is the number of all payments of the request.
pub method_breakdown-IsExact :
    (request : AnalyticsRequest) (books : Books)
    → (buckets : List MethodCounts) × ((method_breakdown request books).value ≡ by_method buckets)
      × ((method_breakdown request books).sample_size ≡ some (request_counts request books).total)
      × IsExact request books buckets
unfolding method_breakdown rate_result
method_breakdown-IsExact request books =
    let grouped = grouped_methods (request_payments request books) in
    (
      sort_by bucket_le grouped,
      refl,
      ap some (total_of-grouped_methods request books),
      record {
        each =
            All-sort_by bucket_le (IsExactFor request books) grouped
              (grouped-AreExact request books);
        ordered =
            sort_by-IsAscending bucket_le (λ b c. str_le_total b.method_id c.method_id) grouped;
        apart =
            AreApart-sort_by grouped
              (AreApart-raise_buckets (status_rows (request_payments request books)) [] tt);
        whole = λ m h.
            grouped-whole request books m
              (sym (any-sort_by {0, 0} bucket_le (is_method m) grouped) ∙ h);
      },
    )
