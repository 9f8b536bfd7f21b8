-- ===== src/Books/Breakdowns/Sizes.antt =====
-- The sizes of the groups that `func.count()` reports: those of some keys have together as many
-- items as the table has with these keys.
use payops_intelligence.Prelude.{
  ℕ, ◌+◌, ◌≡◌, refl, sym, ap, inl, inr, Bool, Bool-cases, List, [], ◌∷◌, filter, length,
  length-append, arith, if◌then◌else◌, ◌&&◌,
}
use payops_intelligence.Prelude.Sort.{append_to, group_onto, group_by}
use payops_intelligence.Prelude.Sort.Laws.{IsKeyTest}
use payops_intelligence.Books.Breakdowns.{sized}

-- The sum of the counts whose key passes.
abbrev pub weigh {κ} : {K : Type κ} → (K → Bool) → List (K × ℕ) → ℕ
weigh q [] = 0
weigh q ((key, count) ∷ rows) = if q key then count + weigh q rows else weigh q rows

pub filter-filter {ℓ} :
    {A : Type ℓ} (p q : A → Bool) (xs : List A)
    → filter q (filter p xs) ≡ filter (λ x. p x && q x) xs
filter-filter p q [] = refl
filter-filter p q (x ∷ xs) = elim (Bool-cases (p x)) [
  | inl e ↦ rw e (elim (Bool-cases (q x)) [
    | inl f ↦ rw f (ap (λ rest. x ∷ rest) (filter-filter p q xs))
    | inr f ↦ rw f (filter-filter p q xs)
  ])
  | inr e ↦ rw e (filter-filter p q xs)
]

pub counted_alike {ℓ} :
    {A : Type ℓ} (p q : A → Bool)
    → ((x : A) → p x ≡ q x)
    → (xs : List A) → length (filter p xs) ≡ length (filter q xs)
counted_alike p q h [] = refl
counted_alike p q h (x ∷ xs) = ground (arith, h x, counted_alike p q h xs)

module _ {ℓ κ} {A : Type ℓ} {K : Type κ} (same : K → K → Bool) (key : A → K) (q : K → Bool) where
  abbrev one_if : K → ℕ
  one_if k = if q k then 1 else 0

  weigh-append_to :
      IsKeyTest same
      → (x : A) (groups : List (K × List A))
      → weigh q (sized (append_to same (key x) x groups)) ≡ weigh q (sized groups) + one_if (key x)
  weigh-append_to test x [] = ground arith
  weigh-append_to test x ((k, xs) ∷ groups) =
      let rest = weigh-append_to test x groups in
      let longer = length-append xs (x ∷ []) in
      elim (Bool-cases (same k (key x))) [
        | inl e ↦ rw e (rw (sym (ap q (test.eq_of_same k (key x) e))) (ground (arith, longer)))
        | inr e ↦ rw e (ground (arith, rest))
      ]

  weigh-group_onto :
      IsKeyTest same
      → (xs : List A) (groups : List (K × List A))
      → weigh q (sized (group_onto same key xs groups))
        ≡ weigh q (sized groups) + length (filter (λ y. q (key y)) xs)
  weigh-group_onto test [] groups = omega arith
  weigh-group_onto test (x ∷ xs) groups = ground (
    arith,
    weigh-group_onto test xs (append_to same (key x) x groups),
    weigh-append_to test x groups,
  )

  pub weigh-group_by :
      IsKeyTest same
      → (xs : List A) → weigh q (sized (group_by same key xs)) ≡ length (filter (λ y. q (key y)) xs)
  weigh-group_by test xs = omega (arith, weigh-group_onto test xs [])
