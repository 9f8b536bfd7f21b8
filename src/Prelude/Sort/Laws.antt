-- ===== src/Prelude/Sort/Laws.antt =====
-- Sorting keeps the items and puts them in order; a group has the items of its key.
use Prim.Native.Nat.{suc}
use Prim.Native.String
use Prim.Native.String.{String, then}
use mathlib.Core.Path.{◌≡◌, refl, sym, ap, ◌∙◌}
use mathlib.Core.Logic.{inl, inr}
use mathlib.Core.Bool.{Bool, true, false, false≢true}
use mathlib.Core.List.{List, [], ◌∷◌, ◌++◌, Perm, append-nil, append_assoc}
use mathlib.Core.List.Perm
use native.Mathlib.Omega.{arith}
use text.Mathlib.Text.{is_le}
use payops_intelligence.Prelude.Tests.{Bool-cases}
use payops_intelligence.Prelude.Text.{str_le}
use payops_intelligence.Prelude.Lists.{filter, length}
use payops_intelligence.Prelude.Sort.{insert_by, sort_by, append_to, group_onto, group_by, members}

-- Of two texts one is at most the other.
pub str_le_total : (s t : String) → str_le s t ≡ false → str_le t s ≡ true
str_le_total String.[] String.[] h = refl
str_le_total String.[] (String.◌∷◌ d t) h =
    absurd (false≢true (sym h ∙ ap is_le (String.compare.nil-cons d t)))
str_le_total (String.◌∷◌ c s) String.[] h = ap is_le (String.compare.nil-cons c s)
str_le_total (String.◌∷◌ c s) (String.◌∷◌ d t) h =
    ground
      (arith, str_le_total s t, String.compare.cons-cons c d s t, String.compare.cons-cons d c t s)

module _ {ℓ} {A : Type ℓ} (le : A → A → Bool) where
  insert_by-perm : (x : A) (xs : List A) → Perm (insert_by le x xs) (x ∷ xs)
  insert_by-perm x [] = Perm.rfl
  insert_by-perm x (y ∷ ys) = elim (Bool-cases (le x y)) [
    | inl e ↦ rw e Perm.rfl
    | inr e ↦ rw e (Perm.trans (Perm.cons y (insert_by-perm x ys)) (Perm.swap x y ys))
  ]

  -- Sorting rearranges the items.
  pub sort_by-perm : (xs : List A) → Perm (sort_by le xs) xs
  sort_by-perm [] = Perm.rfl
  sort_by-perm (x ∷ xs) =
      Perm.trans (insert_by-perm x (sort_by le xs)) (Perm.cons x (sort_by-perm xs))

  length-insert_by : (x : A) (xs : List A) → length (insert_by le x xs) ≡ suc (length xs)
  length-insert_by x [] = refl
  length-insert_by x (y ∷ ys) = elim (Bool-cases (le x y)) [
    | inl e ↦ rw e refl
    | inr e ↦ rw e (ap suc (length-insert_by x ys))
  ]

  pub length-sort_by : (xs : List A) → length (sort_by le xs) ≡ length xs
  length-sort_by [] = refl
  length-sort_by (x ∷ xs) = length-insert_by x (sort_by le xs) ∙ ap suc (length-sort_by xs)

  -- Each item is at most the next one.
  abbrev pub IsAscending : List A → Type 0
  IsAscending [] = Unit
  IsAscending (x ∷ []) = Unit
  IsAscending (x ∷ y ∷ ys) = (le x y ≡ true) × IsAscending (y ∷ ys)

  insert_by-IsAscending :
      ((x y : A) → le x y ≡ false → le y x ≡ true)
      → (x : A) (xs : List A) → IsAscending xs
      → IsAscending (insert_by le x xs)
  insert_by-IsAscending total x [] h = tt
  insert_by-IsAscending total x (y ∷ []) h = elim (Bool-cases (le x y)) [
    | inl e ↦ rw e (e, tt)
    | inr e ↦ rw e (total x y e, tt)
  ]
  insert_by-IsAscending total x (y ∷ z ∷ ys) h = elim (Bool-cases (le x y)) [
    | inl e ↦ rw e (e, h)
    | inr e ↦
        let rest = insert_by-IsAscending total x (z ∷ ys) h.1 in
        elim (Bool-cases (le x z)) [
          | inl f ↦ rw e (rw f (total x y e, rw f at rest))
          | inr f ↦ rw e (rw f (h.0, rw f at rest))
        ]
  ]

  pub sort_by-IsAscending :
      ((x y : A) → le x y ≡ false → le y x ≡ true) → (xs : List A) → IsAscending (sort_by le xs)
  sort_by-IsAscending total [] = tt
  sort_by-IsAscending total (x ∷ xs) =
      insert_by-IsAscending total x (sort_by le xs) (sort_by-IsAscending total xs)

filter-cons {ℓ} :
    {A : Type ℓ} (p : A → Bool) (x : A) (xs : List A)
    → filter p (x ∷ []) ++ filter p xs ≡ filter p (x ∷ xs)
filter-cons p x xs = elim (Bool-cases (p x)) [ inl e ↦ rw e refl | inr e ↦ rw e refl ]

-- What is known of the equality test on keys.
pub record IsKeyTest {ℓ} {K : Type ℓ} (same : K → K → Bool) : Type ℓ where
  pub refl_lem : (k : K) → same k k ≡ true
  pub eq_of_same : (k j : K) → same k j ≡ true → k ≡ j

module _ {ℓ κ} {A : Type ℓ} {K : Type κ} (same : K → K → Bool) (key : A → K) where
  apart :
      IsKeyTest same
      → (k : K) (x : A) (j : K) → same j (key x) ≡ false
      → same j k ≡ true
      → same (key x) k ≡ false
  apart test k x j away e = elim (Bool-cases (same (key x) k)) [
    | inl h ↦
        let equal = test.eq_of_same j k e ∙ sym (test.eq_of_same (key x) k h) in
        absurd (false≢true (sym away ∙ ap (same j) (sym equal) ∙ test.refl_lem j))
    | inr h ↦ h
  ]

  members-append_to :
      IsKeyTest same
      → (k : K) (x : A) (groups : List (K × List A))
      → members same k (append_to same (key x) x groups)
        ≡ members same k groups ++ filter (λ y. same (key y) k) (x ∷ [])
  members-append_to test k x [] = elim (Bool-cases (same (key x) k)) [
    | inl e ↦ rw e refl
    | inr e ↦ rw e refl
  ]
  members-append_to test k x ((j, xs) ∷ groups) =
      let rest = members-append_to test k x groups in
      elim (Bool-cases (same j (key x))) [
        | inl here ↦
            let moved = ap (λ i. same i k) (test.eq_of_same j (key x) here) in
            elim (Bool-cases (same (key x) k)) [
              | inl e ↦ rw here (rw (moved ∙ e) (rw e refl))
              | inr e ↦ rw here (rw (moved ∙ e) (rw e (sym (append-nil _))))
            ]
        | inr away ↦ elim (Bool-cases (same j k)) [
          | inl e ↦ rw away (rw e (rw (apart test k x j away e) (sym (append-nil xs))))
          | inr e ↦ rw away (rw e rest)
        ]
      ]

  members-group_onto :
      IsKeyTest same
      → (k : K) (xs : List A) (groups : List (K × List A))
      → members same k (group_onto same key xs groups)
        ≡ members same k groups ++ filter (λ y. same (key y) k) xs
  members-group_onto test k [] groups = sym (append-nil _)
  members-group_onto test k (x ∷ xs) groups =
      members-group_onto test k xs (append_to same (key x) x groups)
      ∙ ap (λ found. found ++ filter (λ y. same (key y) k) xs) (members-append_to test k x groups)
      ∙ append_assoc (members same k groups) (filter (λ y. same (key y) k) (x ∷ []))
          (filter (λ y. same (key y) k) xs)
      ∙ ap (λ found. members same k groups ++ found) (filter-cons (λ y. same (key y) k) x xs)

  -- The group of a key has the items with that key, in their order.
  pub members-group_by :
      IsKeyTest same
      → (k : K) (xs : List A)
      → members same k (group_by same key xs) ≡ filter (λ y. same (key y) k) xs
  members-group_by test k xs = members-group_onto test k xs []
