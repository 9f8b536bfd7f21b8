-- ===== src/Archive/Rows.antt =====
-- The tables investigation_runs and evidence_index of packages/payops_core/data/models.py, and the
-- `StoredInvestigation` of apps/api/store.py. Times are microseconds since 1970.
use payops_intelligence.Prelude.{
  ℕ, Option, none, some, List, String, str_eq, ℤ, pos, ltb_ℤ, ◌≡◌, if◌then◌else◌,
}
use payops_intelligence.Graph.Types.{EvidenceItem, TraceEvent}

-- What pydantic's `model_dump` and `model_validate` make of a report, an item and an event.
pub record Documents : Type 1 where
  pub Report : Type 0
  pub Json : Type 0
  pub report_merchant : Report → Option String
  pub dump_report : Report → Json
  pub load_report : Json → Report
  pub dump_item : EvidenceItem → Json
  pub load_item : Json → EvidenceItem
  pub dump_event : TraceEvent → Json
  pub load_event : Json → TraceEvent

pub record IsFaithful (D : Documents) : Type 0 where
  pub load-dump_report : (r : D.Report) → D.load_report (D.dump_report r) ≡ r
  pub load-dump_item : (i : EvidenceItem) → D.load_item (D.dump_item i) ≡ i
  pub load-dump_event : (e : TraceEvent) → D.load_event (D.dump_event e) ≡ e

pub record InvestigationRun (D : Documents) : Type 0 where
  pub investigation_id : String
  pub question : String
  pub input_method : String
  pub status : String
  pub merchant_id : Option String
  pub report_json : Option D.Json
  pub trace_json : List D.Json
  pub error : Option String
  pub duration_ms : Option ℤ
  pub created_at : ℕ
  pub updated_at : ℕ

pub record EvidenceRow (D : Documents) : Type 0 where
  pub evidence_id : String
  pub investigation_id : Option String
  pub payload_json : D.Json

pub record Tables (D : Documents) : Type 0 where
  pub runs : List (InvestigationRun D)
  pub evidence : List (EvidenceRow D)

pub record StoredInvestigation (D : Documents) : Type 0 where
  pub investigation_id : String
  pub question : String
  pub input_method : String
  pub status : String
  pub report : Option D.Report
  pub trace : List TraceEvent
  pub evidence : List EvidenceItem
  pub error : Option String
  pub created_at : ℕ
  pub duration_ms : Option ℤ

-- `"voice" if input_method == "voice" else "text"`
unfoldable pub method_of : String → String
method_of method = if str_eq method "voice" then "voice" else "text"

-- `duration_ms if duration_ms is None or duration_ms >= 0 else None`
unfoldable pub duration_of : Option ℤ → Option ℤ
duration_of none = none
duration_of (some n) = if ltb_ℤ n (pos 0) then none else some n

-- `StoredInvestigation.__init__`
unfoldable pub stored :
    {D : Documents} (investigation_id question status : String)
    → Option D.Report
    → List TraceEvent
    → List EvidenceItem
    → Option String
    → ℕ
    → (input_method : String) → Option ℤ
    → StoredInvestigation D
unfolding method_of duration_of
stored id question status report trace evidence error created_at method duration = record {
  investigation_id = id;
  question = question;
  input_method = method_of method;
  status = status;
  report = report;
  trace = trace;
  evidence = evidence;
  error = error;
  created_at = created_at;
  duration_ms = duration_of duration;
}
