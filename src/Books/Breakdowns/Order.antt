-- ===== src/Books/Breakdowns/Order.antt =====
-- Sorting keeps the buckets and what holds of them.
use payops_intelligence.Prelude.{
  ◌≡◌, refl, inl, inr, Bool, false, Bool-cases, List, [], ◌∷◌, str_eq, arith, any, All,
}
use payops_intelligence.Prelude.Sort.{insert_by, sort_by}
use payops_intelligence.Books.Rows.{MethodCounts}
use payops_intelligence.Books.Breakdowns.{bucket_le}
use payops_intelligence.Books.Breakdowns.Methods.{AreApart, str_eq_sym}

module _ {ℓ κ} {A : Type ℓ} (le : A → A → Bool) where
  All-insert_by :
      (P : A → Type κ) (x : A) (xs : List A) → P x → All P xs → All P (insert_by le x xs)
  All-insert_by P x [] h k = (h, tt)
  All-insert_by P x (y ∷ ys) h k = elim (Bool-cases (le x y)) [
    | inl e ↦ rw e (h, k)
    | inr e ↦ rw e (k.0, All-insert_by P x ys h k.1)
  ]

  pub All-sort_by : (P : A → Type κ) (xs : List A) → All P xs → All P (sort_by le xs)
  All-sort_by P [] h = tt
  All-sort_by P (x ∷ xs) h = All-insert_by P x (sort_by le xs) h.0 (All-sort_by P xs h.1)

  any-insert_by : (q : A → Bool) (x : A) (xs : List A) → any q (insert_by le x xs) ≡ any q (x ∷ xs)
  any-insert_by q x [] = refl
  any-insert_by q x (y ∷ ys) = ground (arith, any-insert_by q x ys)

  pub any-sort_by : (q : A → Bool) (xs : List A) → any q (sort_by le xs) ≡ any q xs
  any-sort_by q [] = refl
  any-sort_by q (x ∷ xs) = ground (arith, any-insert_by q x (sort_by le xs), any-sort_by q xs)

AreApart-insert_by :
    (b : MethodCounts) (buckets : List MethodCounts)
    → All (λ (c : MethodCounts). str_eq b.method_id c.method_id ≡ false) buckets
    → AreApart buckets
    → AreApart (insert_by bucket_le b buckets)
AreApart-insert_by b [] away h = (tt, tt)
AreApart-insert_by b (c ∷ buckets) away h = elim (Bool-cases (bucket_le b c)) [
  | inl e ↦ rw e (away, h)
  | inr e ↦ rw e (
    All-insert_by bucket_le (λ d. str_eq c.method_id d.method_id ≡ false) b buckets
        (str_eq_sym b.method_id c.method_id away.0) h.0,
    AreApart-insert_by b buckets away.1 h.1,
  )
]

pub AreApart-sort_by :
    (buckets : List MethodCounts) → AreApart buckets → AreApart (sort_by bucket_le buckets)
AreApart-sort_by [] h = tt
AreApart-sort_by (b ∷ buckets) h =
    AreApart-insert_by b (sort_by bucket_le buckets)
      (All-sort_by bucket_le (λ c. str_eq b.method_id c.method_id ≡ false) buckets h.0)
      (AreApart-sort_by buckets h.1)
