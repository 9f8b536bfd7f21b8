-- ===== src/Webhooks/Analysis/Order.antt =====
-- The order in which events are reported.
use payops_intelligence.Prelude.{◌≡◌, true, false, List, arith}
use payops_intelligence.Prelude.Sort.Laws.{
  str_le_total, sort_by-perm, sort_by-IsAscending, IsAscending,
}
use payops_intelligence.Webhooks.Rows.{AnalyzedEvent}
use payops_intelligence.Webhooks.Analysis.{event_le, sorted_events}
use mathlib.Core.List.{Perm}

event_le_total : (a b : AnalyzedEvent) → event_le a b ≡ false → event_le b a ≡ true
unfolding event_le
event_le_total a b h = ground (arith, str_le_total a.event_id b.event_id)

-- The events are reported all, each as often as it was loaded, and the earlier ones first, those
-- of one time by their identifiers.
pub sorted_events_ordered :
    (events : List AnalyzedEvent)
    → Perm (sorted_events events) events × IsAscending event_le (sorted_events events)
unfolding sorted_events
sorted_events_ordered events =
    (sort_by-perm event_le events, sort_by-IsAscending event_le event_le_total events)
