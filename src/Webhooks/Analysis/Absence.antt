-- ===== src/Webhooks/Analysis/Absence.antt =====
-- Which payments are reported to lack an event.
use payops_intelligence.Prelude.{
  ◌≡◌, refl, ap, ◌∙◌, inl, inr, Bool, not, ◌&&◌, Bool-cases, List, [], ◌∷◌, map, str_eq,
  str_eq_refl, eq_of_str_eq, filter, any,
}
use payops_intelligence.Prelude.Sort.Laws.{IsKeyTest, members-group_by}
use payops_intelligence.Webhooks.Rows.{AnalyzedEvent, AnalyzedPayment}
use payops_intelligence.Webhooks.Analysis.{
  is_terminal, is_empty, is_for, missing_finding, missing_among, find_missing_events,
}

str_eq-IsKeyTest : IsKeyTest str_eq
str_eq-IsKeyTest = record { refl_lem = str_eq_refl; eq_of_same = eq_of_str_eq }

is_empty-filter {ℓ} :
    {A : Type ℓ} (p : A → Bool) (xs : List A) → is_empty (filter p xs) ≡ not (any p xs)
is_empty-filter p [] = refl
is_empty-filter p (x ∷ xs) = elim (Bool-cases (p x)) [
  | inl e ↦ rw e refl
  | inr e ↦ rw e (is_empty-filter p xs)
]

-- A payment that has reached a terminal status, and that no event names.
abbrev pub is_unannounced : List AnalyzedEvent → AnalyzedPayment → Bool
is_unannounced events payment = is_terminal payment && not (any (is_for payment.payment_id) events)

-- Exactly the payments of a terminal status that no event names are reported as missing their
-- event, in their order.
pub find_missing_events_lem :
    (payments : List AnalyzedPayment) (events : List AnalyzedEvent)
    → find_missing_events payments events
      ≡ map missing_finding (filter (is_unannounced events) payments)
unfolding find_missing_events missing_among
find_missing_events_lem [] events = refl
find_missing_events_lem (payment ∷ payments) events =
    let none_named =
      ap is_empty (
        members-group_by str_eq (λ (e : AnalyzedEvent). e.payment_id) str_eq-IsKeyTest
          payment.payment_id events)
      ∙ is_empty-filter (is_for payment.payment_id) events in
    let rest = find_missing_events_lem payments events in
    elim (Bool-cases (is_unannounced events payment)) [
      | inl e ↦ rw none_named (rw e (ap (λ found. missing_finding payment ∷ found) rest))
      | inr e ↦ rw none_named (rw e rest)
    ]
