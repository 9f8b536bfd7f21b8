-- ===== src/Webhooks/Findings/Distinct.antt =====
-- Which groups of events are reported as duplicates.
use payops_intelligence.Prelude.{
  ◌≤◌, ◌≡◌, refl, ◌∙◌, inl, inr, false, not, ◌&&◌, Bool-cases, List, [], ◌∷◌, ◌++◌, String, str_le,
  length, any, leb, All, All-map, arith,
}
use payops_intelligence.Prelude.Sort.Laws.{length-sort_by}
use payops_intelligence.Webhooks.Rows.{AnalyzedEvent, WebhookFinding}
use payops_intelligence.Webhooks.Analysis.{sorted_events}
use payops_intelligence.Webhooks.Findings.{
  event_ids_of, sorted_ids, same_ids, duplicate_finding, duplicates_among, duplicate_groups,
  find_duplicate_events,
}

-- A finding on two events or more, whose identifiers were not seen before.
abbrev IsNew : List (List String) → WebhookFinding → Type 0
IsNew seen f = (2 ≤ length f.event_ids) × (any (same_ids f.event_ids) seen ≡ false)

-- No finding has the identifiers of an earlier one.
abbrev pub AreApart : List WebhookFinding → Type 0
AreApart [] = Unit
AreApart (f ∷ findings) =
    All (λ (g : WebhookFinding). same_ids g.event_ids f.event_ids ≡ false) findings
    × AreApart findings

length-sorted_ids : (group : List AnalyzedEvent) → length (sorted_ids group) ≡ length group
unfolding sorted_ids
length-sorted_ids group = length-sort_by str_le (event_ids_of group) ∙ length-event_ids group
  where
    length-event_ids : (group : List AnalyzedEvent) → length (event_ids_of group) ≡ length group
    length-event_ids [] = refl
    length-event_ids (e ∷ events) = omega (arith, length-event_ids events)

abbrev AreNew : List (List String) → List WebhookFinding → Type 0
AreNew seen findings = All (IsNew seen) findings × AreApart findings

AreNew-duplicate_finding :
    (seen : List (List String)) (ids : List String) (group : List AnalyzedEvent)
    (later : List WebhookFinding)
    → 2 ≤ length ids
    → any (same_ids ids) seen ≡ false
    → AreNew (ids ∷ seen) later
    → AreNew seen (duplicate_finding ids group ++ later)
unfolding duplicate_finding
AreNew-duplicate_finding seen ids [] later long fresh (new, apart) =
    (All-map (λ f h. (h.0, ground arith)) later new, apart)
AreNew-duplicate_finding seen ids (e ∷ group) later long fresh (new, apart) = (
  ((long, fresh), All-map (λ f h. (h.0, ground arith)) later new),
  (All-map (λ f h. ground arith) later new, apart),
)

duplicates_among-AreNew :
    (seen : List (List String)) (groups : List (List AnalyzedEvent))
    → AreNew seen (duplicates_among seen groups)
unfolding duplicates_among
duplicates_among-AreNew seen [] = (tt, tt)
duplicates_among-AreNew seen (group ∷ rest) =
    elim (Bool-cases (leb 2 (length group) && not (any (same_ids (sorted_ids group)) seen))) [
      | inl e ↦ rw e (
          AreNew-duplicate_finding seen (sorted_ids group) (sorted_events group) _
            (ground (arith, length-sorted_ids group)) (ground arith)
            (duplicates_among-AreNew (sorted_ids group ∷ seen) rest))
      | inr e ↦ rw e (duplicates_among-AreNew seen rest)
    ]

-- Every reported duplicate names two events or more, and no two reports name the same events.
pub find_duplicate_events_distinct :
    (events : List AnalyzedEvent)
    → All (λ (f : WebhookFinding). 2 ≤ length f.event_ids) (find_duplicate_events events)
      × AreApart (find_duplicate_events events)
unfolding find_duplicate_events
find_duplicate_events_distinct events =
    let (new, apart) = duplicates_among-AreNew [] (duplicate_groups events) in
    (All-map (λ f h. h.0) _ new, apart)
