-- ===== src/Auth/Rows.antt =====
-- Rows found by a test, before and after an update.
use payops_intelligence.Prelude.{
  ◌≡◌, refl, ap, ◌∙◌, sym, inl, inr, Bool, true, Bool-cases, Option, none, some, List, [], ◌∷◌,
  if◌then◌else◌,
}
use payops_intelligence.Auth.Store.{first, update}

abbrev or_first : {R : Type 0} → R → Option R → R
or_first r none = r
or_first r (some row) = row

pub some_injective : {R : Type 0} (r row : R) → some r ≡ some row → r ≡ row
some_injective r row e = ap (λ o. or_first r o) e

picked :
    {R : Type 0} (test pick : R → Bool) (change : R → R)
    → ((row : R) → test (change row) ≡ test row)
    → (row : R) → test (if pick row then change row else row) ≡ test row
picked test pick change same row = elim (Bool-cases (pick row)) [
  | inl chosen ↦ rw chosen (same row)
  | inr left ↦ rw left refl
]

-- A row found after an update that leaves the test alone.
pub first-update :
    {R : Type 0} (test pick : R → Bool) (change : R → R) (rows : List R)
    → ((row : R) → test (change row) ≡ test row)
    → (row : R) → first test rows ≡ some row
    → first test (update pick change rows) ≡ some (if pick row then change row else row)
first-update test pick change [] same row e = absurd cc
first-update test pick change (r ∷ rows) same row e = elim (Bool-cases (test r)) [
  | inl here ↦
      rw (picked test pick change same r ∙ here)
        (ap (λ x. some (if pick x then change x else x)) (some_injective r row (rw here at e)))
  | inr away ↦
      rw (picked test pick change same r ∙ away)
        (first-update test pick change rows same row (rw away at e))
]

-- A row found has passed the test; one found in an updated list is an updated row.
pub first_passes :
    {R : Type 0} (test : R → Bool) (rows : List R) (row : R)
    → first test rows ≡ some row
    → test row ≡ true
first_passes test [] row e = absurd cc
first_passes test (r ∷ rows) row e = elim (Bool-cases (test r)) [
  | inl here ↦ ap test (sym (some_injective r row (rw here at e))) ∙ here
  | inr away ↦ first_passes test rows row (rw away at e)
]

pub first-updated_row :
    {R : Type 0} (test pick : R → Bool) (change : R → R) (rows : List R) (row : R)
    → first test (update pick change rows) ≡ some row
    → (old : R) × (row ≡ (if pick old then change old else old))
first-updated_row test pick change [] row e = absurd cc
first-updated_row test pick change (r ∷ rows) row e =
    elim (Bool-cases (test (if pick r then change r else r))) [
      | inl here ↦ (r, sym (some_injective _ row (rw here at e)))
      | inr away ↦ first-updated_row test pick change rows row (rw away at e)
    ]
