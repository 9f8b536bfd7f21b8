-- ===== src/Tests/Archive.antt =====
-- The investigation store on concrete rows.
use payops_intelligence.Prelude.{
  ℕ, is_given, ◌≡◌, ◌≢◌, refl, true, false, Bool, none, some, is_some, Option, List, [], ◌∷◌,
  String, is_id, arith,
}
use payops_intelligence.Graph.Types.{EvidenceItem, TraceEvent, doc}
use payops_intelligence.Graph.State.{initial_state}
use payops_intelligence.Graph.Machine.{planner, walk, maximum}
use payops_intelligence.Archive.Rows.{
  Documents, EvidenceRow, IsFaithful, Tables, StoredInvestigation, stored,
}
use payops_intelligence.Archive.Index.{evidence_of, upsert_all, find_row, get_evidence}
use payops_intelligence.Archive.Index.Lookup.{entry_after_all, find_row-upsert_all}
use payops_intelligence.Archive.Store.{put, get, delete, find_run}
use payops_intelligence.Archive.Store.Puts.{IsKept, get-put}
use payops_intelligence.Archive.Store.Deletion.{get-delete}
use payops_intelligence.Archive.Requests.{
  rejected, CreateRequest, Opened, returned, raised, ending_of, merchant_error,
  create_investigation,
}
use payops_intelligence.Archive.Requests.Service.{
  IsFiled, get_investigation-create_investigation, IsReported, create_investigation-walk,
}
use payops_intelligence.Tests.Graph.{item, failing, runtime}

data Paper : Type 0 where
  number : ℕ → Paper
  cited : EvidenceItem → Paper
  event : TraceEvent → Paper

abbrev no_event : TraceEvent
no_event = record {
  node = "";
  action = "";
  tool = none;
  search_query = none;
  evidence_ids = [];
  decision = none;
  verification_status = none;
}

abbrev number_of : Paper → ℕ
number_of (number n) = n
number_of (cited i) = 0
number_of (event e) = 0

abbrev item_of_paper : Paper → EvidenceItem
item_of_paper (number n) = item "" doc ""
item_of_paper (cited i) = i
item_of_paper (event e) = item "" doc ""

abbrev event_of : Paper → TraceEvent
event_of (number n) = no_event
event_of (cited i) = no_event
event_of (event e) = e

abbrev papers : Documents
papers = record {
  Report = ℕ;
  Json = Paper;
  report_merchant = λ n. none;
  dump_report = number;
  load_report = number_of;
  dump_item = cited;
  load_item = item_of_paper;
  dump_event = event;
  load_event = event_of;
}

papers-IsFaithful : IsFaithful papers
papers-IsFaithful = record {
  load-dump_report = λ r. refl;
  load-dump_item = λ i. refl;
  load-dump_event = λ e. refl;
}

abbrev chunk : EvidenceItem
chunk = item "doc-7" doc "refunds"

abbrev inquiry : String → StoredInvestigation papers
inquiry id = stored id "why" "completed" (some 4) (no_event ∷ []) (chunk ∷ []) none 5 "voice" none

abbrev empty : Tables papers
empty = record { runs = []; evidence = [] }

abbrev one : Tables papers
one = put papers 6 (inquiry "a") empty

abbrev two : Tables papers
two = put papers 8 (inquiry "b") one

abbrev evidence_or_none : Option (StoredInvestigation papers) → List EvidenceItem
evidence_or_none none = []
evidence_or_none (some s) = s.evidence

-- A later investigation that cites the same chunk takes it from the earlier one, and its deletion
-- removes it.
kept_first : evidence_or_none (get papers "a" one) ≡ chunk ∷ []
unfolding get put
kept_first = refl

lost_first : evidence_or_none (get papers "a" two) ≡ []
unfolding get put
lost_first = refl

deleted_both : get_evidence papers "doc-7" (delete papers "b" two).1.evidence ≡ none
unfolding delete put get_evidence stored
deleted_both = refl

find_row-upsert_all_example :
    (find_row papers "doc-7" (upsert_all papers (chunk ∷ []) none two.evidence)
      ≡ entry_after_all papers "doc-7" (chunk ∷ []) none (find_row papers "doc-7" two.evidence))
    × ((row : EvidenceRow papers)
        → find_row papers "doc-7" two.evidence ≡ some row
        → is_given row.investigation_id ≡ true
        → find_row papers "doc-7" (upsert_all papers (chunk ∷ []) none two.evidence) ≡ some row)
find_row-upsert_all_example = find_row-upsert_all papers "doc-7" (chunk ∷ []) none two.evidence

get-put_example :
    (s : StoredInvestigation papers) × (get papers "b" two ≡ some s) × IsKept papers (inquiry "b") s
unfolding stored
get-put_example = get-put papers papers-IsFaithful 8 (inquiry "b") one (λ e. absurd cc)

get-delete_example :
    let (found, t) = delete papers "b" two in
    (found ≡ is_some (find_run papers "b" two.runs))
    × (get papers "b" t ≡ none)
    × (found ≡ true → evidence_of papers "b" t.evidence ≡ [])
    × ((other : String) → other ≢ "b" → get papers other t ≡ get papers other two)
get-delete_example = get-delete papers "b" two

abbrev request : CreateRequest
request = record { query = "why"; question = none; input_method = "text"; merchant_id = some "M1" }

abbrev opened : Opened
opened = record { investigation_id = "c"; opened_at = 9; now = 12; elapsed_ms = none }

abbrev merchants : String → Bool
merchants id = true

unknown_merchant :
    (create_investigation papers (λ id. false) request opened (raised "E" "x") two)
    ≡ (rejected 404 "merchant not found", two)
unfolding create_investigation is_id
unknown_merchant = refl

get_investigation-create_investigation_example :
    IsFiled papers "c" (create_investigation papers merchants request opened (raised "E" "x") two)
unfolding is_id merchant_error
get_investigation-create_investigation_example =
    get_investigation-create_investigation papers papers-IsFaithful merchants request opened
      (raised "E" "x") two refl refl

create_investigation-walk_example :
    IsReported papers
      (create_investigation papers merchants request opened
        (returned (
          ending_of papers failing
            (λ n. n)
            (walk runtime 16
              (planner, initial_state failing "why" 2 none "text" "en" "en" none)).1))
        two).0
unfolding is_id maximum merchant_error
create_investigation-walk_example =
    create_investigation-walk papers failing (λ n. n) runtime merchants request opened two refl
      "why" 2 none "text" "en" "en" none 16 (omega arith)
