-- ===== src/Archive/Requests.antt =====
-- apps/api/routers/investigations.py: running, fetching and deleting investigations.
pub mod Service
use payops_intelligence.Prelude.{
  ℕ, Bool, true, false, not, Option, none, some, List, [], ◌∷◌, String, str_eq, is_id, ◌<>◌,
  take_text, take, length, ℤ, if◌then◌else◌,
}
use payops_intelligence.Graph.Types.{EvidenceItem, TraceEvent}
use payops_intelligence.Graph.Agents.{Agents}
use payops_intelligence.Graph.State.{InvestigationState}
use payops_intelligence.Graph.Machine.{has_text}
use payops_intelligence.Archive.Rows.{Documents, Tables, StoredInvestigation, stored}
use payops_intelligence.Archive.Store.{put, get, delete, delete_all, list_recent, count_runs}

-- The answer to a request: a value, or a status code with a detail.
pub data Answer (B : Type 0) : Type 0 where
  answered : B → Answer B
  rejected : ℕ → String → Answer B

-- The parts of the final state that the handler reads.
pub record Ending (D : Documents) : Type 0 where
  pub report : Option D.Report
  pub trace : List TraceEvent
  pub evidence : List EvidenceItem
  pub error : Option String
  pub timed_out : Bool

-- `run_investigation`: the final state, or the name and the text of the exception.
pub data Run (D : Documents) : Type 0 where
  returned : Ending D → Run D
  raised : String → String → Run D

-- `InvestigationCreateRequest`, as the handler reads it.
pub record CreateRequest : Type 0 where
  pub query : String
  pub question : Option String
  pub input_method : String
  pub merchant_id : Option String

-- The identifier made for the run, its start, the time of its record and its duration.
pub record Opened : Type 0 where
  pub investigation_id : String
  pub opened_at : ℕ
  pub now : ℕ
  pub elapsed_ms : Option ℤ

abbrev pub text_or : Option String → String → String
text_or none fallback = fallback
text_or (some text) fallback = if str_eq text "" then fallback else text

-- `payload.query or payload.question or ""`
unfoldable pub query_of : CreateRequest → String
query_of request = if str_eq request.query "" then text_or request.question "" else request.query

-- The error text of a run, at most 300 characters of it.
unfoldable pub cut : Option String → Option String
cut none = none
cut (some text) = some (take_text 300 text)

-- `_persistable_error`
unfoldable pub persistable_error : (name text : String) → Option String → Option String
unfolding has_text cut
persistable_error name text graph_error =
    if has_text graph_error then cut graph_error else cut (some (name <> (": " <> text)))

-- The guards on the merchant: an identifier that is given must be well formed and known.
unfoldable pub merchant_error : (String → Bool) → Option String → Option (ℕ × String)
unfolding is_id
merchant_error merchants none = none
merchant_error merchants (some id) =
    if str_eq id ""
    then none
    else if is_id id
    then if merchants id then none else some (404, "merchant not found")
    else some (400, "invalid merchant_id")

module _ (D : Documents) where
  -- The final state of the graph, with its report as the store keeps it.
  unfoldable pub ending_of : (A : Agents) → (A.Report → D.Report) → InvestigationState A → Ending D
  ending_of A kept s = record {
    report = elim s.report [ none ↦ none | some report ↦ some (kept report) ];
    trace = s.trace;
    evidence = s.evidence;
    error = s.error;
    timed_out = s.timed_out;
  }

  -- `_status_from_state`
  unfoldable pub status_from_state : Ending D → String × Option String
  unfolding cut has_text
  status_from_state e =
      if e.timed_out
      then ("failed", cut (some (text_or e.error "Investigation timed out")))
      else if has_text e.error
      then ("failed", cut e.error)
      else ("completed", none)

  -- The record of a run that the graph did not finish, or finished without a report.
  unfoldable pub failed_record :
      CreateRequest → Opened → Option (Ending D) → (name text : String) → StoredInvestigation D
  unfolding stored query_of persistable_error
  failed_record request o none name text =
      stored o.investigation_id (query_of request) "failed" none [] []
        (persistable_error name text none) o.opened_at request.input_method o.elapsed_ms
  failed_record request o (some e) name text =
      stored o.investigation_id (query_of request) "failed" e.report e.trace e.evidence
        (persistable_error name text e.error) o.opened_at request.input_method o.elapsed_ms

  unfoldable pub finished_record :
      CreateRequest → Opened → D.Report → Ending D → StoredInvestigation D
  unfolding stored query_of status_from_state
  finished_record request o report e =
      let (status, error) = status_from_state e in
      stored o.investigation_id (query_of request) status (some report) e.trace e.evidence error
        o.opened_at request.input_method o.elapsed_ms

  -- `report_from`, and the records that the handler puts with and without a report.
  unfoldable pub report_run :
      Option D.Report
      → CreateRequest
      → Opened
      → Ending D
      → Tables D
      → Answer (StoredInvestigation D) × Tables D
  unfolding failed_record finished_record put
  report_run none request o e t = (
    rejected 500 "Investigation failed",
    put D o.now
        (failed_record request o (some e) "RuntimeError" "investigation did not produce a report")
        t,
  )
  report_run (some report) request o e t =
      let r = finished_record request o report e in (answered r, put D o.now r t)

  unfoldable pub conclude_run :
      CreateRequest → Opened → Run D → Tables D → Answer (StoredInvestigation D) × Tables D
  unfolding failed_record report_run put
  conclude_run request o (raised name text) t =
      (rejected 500 "Investigation failed", put D o.now (failed_record request o none name text) t)
  conclude_run request o (returned e) t = report_run e.report request o e t

  unfoldable pub run_unless :
      Option (ℕ × String)
      → CreateRequest
      → Opened
      → Run D
      → Tables D
      → Answer (StoredInvestigation D) × Tables D
  unfolding conclude_run
  run_unless (some (code, detail)) request o run t = (rejected code detail, t)
  run_unless none request o run t = conclude_run request o run t

  unfoldable pub create_investigation :
      (merchants : String → Bool)
      → CreateRequest
      → Opened
      → Run D
      → Tables D
      → Answer (StoredInvestigation D) × Tables D
  unfolding merchant_error run_unless
  create_investigation merchants request o run t =
      run_unless (merchant_error merchants request.merchant_id) request o run t

  abbrev pub found_or : {B : Type 0} → Option B → Answer B
  found_or none = rejected 404 "investigation not found"
  found_or (some r) = answered r

  -- The reads of one investigation; the trace is a field of it.
  unfoldable pub get_investigation : String → Tables D → Answer (StoredInvestigation D)
  unfolding is_id get
  get_investigation id t = if is_id id then found_or (get D id t) else rejected 400 "invalid id"

  unfoldable pub get_investigation_trace : String → Tables D → Answer (List TraceEvent)
  unfolding get_investigation
  get_investigation_trace id t = elim (get_investigation id t) [
    | answered r ↦ answered r.trace
    | rejected code detail ↦ rejected code detail
  ]

  unfoldable pub delete_investigation : String → Tables D → Answer Unit × Tables D
  unfolding is_id delete
  delete_investigation id t =
      let (found, t') = delete D id t in
      if is_id id
      then if found then (answered tt, t') else (rejected 404 "investigation not found", t')
      else (rejected 400 "invalid id", t)

  unfoldable pub list_investigations : Tables D → List (StoredInvestigation D) × ℕ
  unfolding list_recent count_runs
  list_investigations t = (list_recent D 20 t, count_runs D t)

  unfoldable pub delete_all_investigations : Tables D → ℕ × Tables D
  unfolding delete_all
  delete_all_investigations t = delete_all D t
