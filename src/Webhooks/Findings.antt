-- ===== src/Webhooks/Findings.antt =====
-- packages/payops_core/tools/webhook_analysis.py: retried and duplicate deliveries.
pub mod Distinct
use payops_intelligence.Prelude.{
  ℕ, Bool, true, false, not, ◌&&◌, ◌||◌, Option, none, some, List, [], ◌∷◌, ◌++◌, map, String,
  str_eq, str_le, is_given, filter, length, any, ltb, leb, ◌==◌, ℤ, pos, leb_ℤ, ltb_ℤ, eqb_ℤ,
  if◌then◌else◌,
}
use payops_intelligence.Prelude.Sort.{sort_by, group_by}
use payops_intelligence.Webhooks.Rows.{
  AnalyzedEvent, WebhookFinding, Kind, retry, duplicate, of_retry, of_duplicate,
}
use payops_intelligence.Webhooks.Analysis.{sorted_events}

-- The equality of keys that are pairs and triples.
abbrev pub same_pair : String × String → String × String → Bool
same_pair (a, b) (c, d) = str_eq a c && str_eq b d

abbrev pub same_keyed : String × String × String → String × String × String → Bool
same_keyed (a, b, c) (d, e, f) = str_eq a d && (str_eq b e && str_eq c f)

abbrev pub same_attempt : String × String × ℤ → String × String × ℤ → Bool
same_attempt (a, b, c) (d, e, f) = str_eq a d && (str_eq b e && eqb_ℤ c f)

-- `_groups`
unfoldable pub groups : List AnalyzedEvent → List ((String × String) × List AnalyzedEvent)
groups events = group_by same_pair (λ (e : AnalyzedEvent). (e.payment_id, e.event_type)) events

-- `len(set(attempts)) == len(attempts)`
unfoldable pub are_distinct : List ℤ → Bool
are_distinct [] = true
are_distinct (n ∷ ns) = not (any (λ m. eqb_ℤ n m) ns) && are_distinct ns

-- `max(attempts) > min(attempts)`
unfoldable pub is_rising : List ℤ → Bool
is_rising ns = any (λ n. any (λ m. ltb_ℤ n m) ns) ns

-- The order of the keys `(attempt, created_at)`.
unfoldable pub attempt_le : AnalyzedEvent → AnalyzedEvent → Bool
attempt_le a b =
    ltb_ℤ a.attempt b.attempt || (eqb_ℤ a.attempt b.attempt && leb a.created_at b.created_at)

abbrev pub attempts_of : List AnalyzedEvent → List ℤ
attempts_of events = map (λ e. e.attempt) events

abbrev pub event_ids_of : List AnalyzedEvent → List String
event_ids_of events = map (λ e. e.event_id) events

-- The finding on a sorted group, where it has an event.
unfoldable pub retry_finding :
    (payment_id event_type : String) → List AnalyzedEvent → List WebhookFinding
retry_finding payment_id event_type [] = []
retry_finding payment_id event_type (e ∷ rest) =
    record {
      kind = retry;
      payment_id = payment_id;
      order_id = e.order_id;
      merchant_id = e.merchant_id;
      event_ids = event_ids_of (e ∷ rest);
      event_type = some event_type;
      delivery_status = none;
      delay_ms = none;
      details = of_retry (attempts_of (e ∷ rest)) (map (λ e. e.delivery_status) (e ∷ rest));
    }
    ∷ []

-- The tests that skip a group.
abbrev pub is_retried : List AnalyzedEvent → Bool
is_retried group =
    leb 2 (length group) && (are_distinct (attempts_of group) && is_rising (attempts_of group))

unfoldable pub retries_among : List ((String × String) × List AnalyzedEvent) → List WebhookFinding
unfolding retry_finding attempt_le are_distinct is_rising
retries_among [] = []
retries_among (((payment_id, event_type), group) ∷ rest) =
    let later = retries_among rest in
    if is_retried group
    then retry_finding payment_id event_type (sort_by attempt_le group) ++ later
    else later

unfoldable pub find_retries : List AnalyzedEvent → List WebhookFinding
unfolding groups retries_among
find_retries events = retries_among (groups events)

abbrev pub key_or_empty : Option String → String
key_or_empty none = ""
key_or_empty (some key) = key

-- The events under each key, first those with an idempotency key.
unfoldable pub duplicate_groups : List AnalyzedEvent → List (List AnalyzedEvent)
unfolding is_given
duplicate_groups events =
    map (λ g. g.1)
      (group_by same_keyed
        (λ (e : AnalyzedEvent). (e.payment_id, e.event_type, key_or_empty e.idempotency_key))
        (filter (λ (e : AnalyzedEvent). is_given e.idempotency_key) events))
    ++ map (λ g. g.1)
        (group_by same_attempt (λ (e : AnalyzedEvent). (e.payment_id, e.event_type, e.attempt))
          events)

-- `tuple(sorted(event.event_id for event in group))`
unfoldable pub sorted_ids : List AnalyzedEvent → List String
sorted_ids group = sort_by str_le (event_ids_of group)

abbrev pub same_ids : List String → List String → Bool
same_ids [] [] = true
same_ids [] (t ∷ ts) = false
same_ids (s ∷ ss) [] = false
same_ids (s ∷ ss) (t ∷ ts) = str_eq s t && same_ids ss ts

unfoldable pub duplicate_finding : List String → List AnalyzedEvent → List WebhookFinding
duplicate_finding event_ids [] = []
duplicate_finding event_ids (e ∷ rest) =
    record {
      kind = duplicate;
      payment_id = e.payment_id;
      order_id = e.order_id;
      merchant_id = e.merchant_id;
      event_ids = event_ids;
      event_type = some e.event_type;
      delivery_status = none;
      delay_ms = none;
      details = of_duplicate e.idempotency_key e.attempt (length (e ∷ rest));
    }
    ∷ []

-- The loop over the groups, with the event identifiers seen.
unfoldable pub duplicates_among :
    List (List String) → List (List AnalyzedEvent) → List WebhookFinding
unfolding sorted_ids duplicate_finding sorted_events
duplicates_among seen [] = []
duplicates_among seen (group ∷ rest) =
    let ids = sorted_ids group in
    let new = leb 2 (length group) && not (any (same_ids ids) seen) in
    let later = duplicates_among (if new then ids ∷ seen else seen) rest in
    if new then duplicate_finding ids (sorted_events group) ++ later else later

unfoldable pub find_duplicate_events : List AnalyzedEvent → List WebhookFinding
unfolding duplicates_among duplicate_groups
find_duplicate_events events = duplicates_among [] (duplicate_groups events)
