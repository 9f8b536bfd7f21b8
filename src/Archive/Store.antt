-- ===== src/Archive/Store.antt =====
-- apps/api/store.py: `InvestigationStore`. A query without an order returns rows in table order.
pub mod Puts
pub mod Deletion
use payops_intelligence.Prelude.{
  ℕ, ◌-◌, ◌/◌, Bool, true, false, not, Option, none, some, is_some, List, [], ◌∷◌, map, String,
  str_eq, leb, filter, length, take, any, ℤ, pos, if◌then◌else◌,
}
use payops_intelligence.Graph.Types.{EvidenceItem, TraceEvent}
use payops_intelligence.Archive.Rows.{
  Documents, InvestigationRun, EvidenceRow, Tables, StoredInvestigation, stored,
}
use payops_intelligence.Archive.Index.{is_owned, upsert_all, evidence_of}

module _ (D : Documents) where
  abbrev pub find_run : String → List (InvestigationRun D) → Option (InvestigationRun D)
  find_run id [] = none
  find_run id (row ∷ rows) = if str_eq row.investigation_id id then some row else find_run id rows

  abbrev pub merchant_of : Option D.Report → Option String
  merchant_of none = none
  merchant_of (some report) = D.report_merchant report

  abbrev pub dumped : Option D.Report → Option D.Json
  dumped none = none
  dumped (some report) = some (D.dump_report report)

  abbrev pub loaded : Option D.Json → Option D.Report
  loaded none = none
  loaded (some json) = some (D.load_report json)

  -- The row that `put` leaves, created at the time given.
  unfoldable pub row_of : ℕ → ℕ → StoredInvestigation D → InvestigationRun D
  row_of now created_at r = record {
    investigation_id = r.investigation_id;
    question = r.question;
    input_method = r.input_method;
    status = r.status;
    merchant_id = merchant_of r.report;
    report_json = dumped r.report;
    trace_json = map D.dump_event r.trace;
    error = r.error;
    duration_ms = r.duration_ms;
    created_at = created_at;
    updated_at = now;
  }

  unfoldable pub put_run :
      ℕ → StoredInvestigation D → List (InvestigationRun D) → List (InvestigationRun D)
  unfolding row_of
  put_run now r [] = row_of now r.created_at r ∷ []
  put_run now r (row ∷ rows) =
      if str_eq row.investigation_id r.investigation_id
      then row_of now row.created_at r ∷ rows
      else row ∷ put_run now r rows

  unfoldable pub put : ℕ → StoredInvestigation D → Tables D → Tables D
  unfolding put_run upsert_all
  put now r t = record {
    runs = put_run now r t.runs;
    evidence = upsert_all D r.evidence (some r.investigation_id) t.evidence;
  }

  -- The duration on record, or that between the two times of the row, in milliseconds.
  unfoldable pub row_duration : InvestigationRun D → Option ℤ
  row_duration row =
      if is_some row.duration_ms
      then row.duration_ms
      else if leb row.created_at row.updated_at
      then some (pos ((row.updated_at - row.created_at) / 1000))
      else none

  -- `_from_row`
  unfoldable pub from_row : InvestigationRun D → List EvidenceItem → StoredInvestigation D
  unfolding stored row_duration
  from_row row evidence =
      stored row.investigation_id row.question row.status (loaded row.report_json)
        (map D.load_event row.trace_json) evidence row.error row.created_at
        (if str_eq row.input_method "" then "text" else row.input_method) (row_duration row)

  unfoldable pub get_found :
      Option (InvestigationRun D) → String → Tables D → Option (StoredInvestigation D)
  unfolding from_row evidence_of
  get_found none id t = none
  get_found (some row) id t = some (from_row row (evidence_of D id t.evidence))

  unfoldable pub get : String → Tables D → Option (StoredInvestigation D)
  unfolding get_found
  get id t = get_found (find_run id t.runs) id t

  abbrev pub is_run : String → InvestigationRun D → Bool
  is_run id row = str_eq row.investigation_id id

  unfoldable pub delete_found : Option (InvestigationRun D) → String → Tables D → Bool × Tables D
  unfolding is_owned
  delete_found none id t = (false, t)
  delete_found (some row) id t = (
    true,
    record {
      runs = filter (λ r. not (is_run id r)) t.runs;
      evidence = filter (λ (r : EvidenceRow D). not (is_owned id r.investigation_id)) t.evidence;
    },
  )

  unfoldable pub delete : String → Tables D → Bool × Tables D
  unfolding delete_found
  delete id t = delete_found (find_run id t.runs) id t

  -- The rows that no run in the table owns.
  unfoldable pub is_orphan : List (InvestigationRun D) → EvidenceRow D → Bool
  unfolding is_owned
  is_orphan runs row =
      not (any (λ (r : InvestigationRun D). is_owned r.investigation_id row.investigation_id) runs)

  unfoldable pub delete_all : Tables D → ℕ × Tables D
  unfolding is_orphan
  delete_all t =
      (length t.runs, record { runs = []; evidence = filter (is_orphan t.runs) t.evidence })

  unfoldable pub count_runs : Tables D → ℕ
  count_runs t = length t.runs

  unfoldable pub count_evidence : Tables D → ℕ
  count_evidence t = length t.evidence

  unfoldable pub index_evidence : List EvidenceItem → Tables D → Tables D
  unfolding upsert_all
  index_evidence items t = record t { evidence = upsert_all D items none t.evidence }

  -- The newest first; rows of one time keep their order.
  unfoldable pub insert_run :
      InvestigationRun D → List (InvestigationRun D) → List (InvestigationRun D)
  insert_run r [] = r ∷ []
  insert_run r (s ∷ rows) =
      if leb s.created_at r.created_at then r ∷ s ∷ rows else s ∷ insert_run r rows

  unfoldable pub newest : List (InvestigationRun D) → List (InvestigationRun D)
  unfolding insert_run
  newest [] = []
  newest (r ∷ rows) = insert_run r (newest rows)

  -- `by_run`, which leaves out the rows of an empty identifier.
  unfoldable pub by_run : List (EvidenceRow D) → InvestigationRun D → List EvidenceItem
  unfolding evidence_of
  by_run evidence row =
      if str_eq row.investigation_id "" then [] else evidence_of D row.investigation_id evidence

  unfoldable pub list_recent : ℕ → Tables D → List (StoredInvestigation D)
  unfolding newest from_row by_run
  list_recent limit t =
      map (λ (row : InvestigationRun D). from_row row (by_run t.evidence row))
        (take limit (newest t.runs))
