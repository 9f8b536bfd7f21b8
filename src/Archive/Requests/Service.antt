-- ===== src/Archive/Requests/Service.antt =====
-- From a request to the record that later requests fetch.
use payops_intelligence.Prelude.{
  ℕ, ◌+◌, ◌*◌, ◌≤◌, ◌≡◌, refl, ap, sym, ◌∙◌, ◌≢◌, false≢true, Bool, true, Option, none, some,
  is_some, String, is_id, arith,
}
use payops_intelligence.Graph.Agents.{Agents, Runtime}
use payops_intelligence.Graph.State.{InvestigationState, initial_state}
use payops_intelligence.Graph.Machine.{planner, maximum, walk}
use payops_intelligence.Graph.Machine.Outcome.{walk-IsComplete}
use payops_intelligence.Archive.Rows.{Documents, IsFaithful, Tables, StoredInvestigation, stored}
use payops_intelligence.Archive.Store.{put}
use payops_intelligence.Archive.Store.Puts.{IsKept, get-put}
use payops_intelligence.Archive.Requests.{
  Answer, answered, rejected, Ending, Run, returned, raised, CreateRequest, Opened, ending_of,
  failed_record, finished_record, report_run, conclude_run, run_unless, merchant_error,
  create_investigation, get_investigation,
}

is_id-named : (id : String) → is_id id ≡ true → id ≢ ""
unfolding is_id
is_id-named id h e = false≢true (ap is_id (sym e) ∙ h)

module _ (D : Documents) where
  -- The record that is fetched later, against the answer that the run was given: it is the record
  -- answered, or else a failed investigation where the answer was a server error.
  abbrev pub Fits : Answer (StoredInvestigation D) → StoredInvestigation D → Type 0
  Fits (answered r) s = IsKept D r s
  Fits (rejected code detail) s = (code ≡ 500) × (s.status ≡ "failed")

  -- The identifier names the run's record in the store.
  abbrev pub IsFiled : String → Answer (StoredInvestigation D) × Tables D → Type 0
  IsFiled id (answer, t) =
      (s : StoredInvestigation D) × (get_investigation D id t ≡ answered s) × Fits answer s

  filed :
      IsFaithful D
      → (now : ℕ) (r : StoredInvestigation D) (t : Tables D) → is_id r.investigation_id ≡ true
      → (answer : Answer (StoredInvestigation D))
      → ((s : StoredInvestigation D) → IsKept D r s → Fits answer s)
      → IsFiled r.investigation_id (answer, put D now r t)
  unfolding get_investigation
  filed faithful now r t h answer fits =
      let (s, e, kept) = get-put D faithful now r t (is_id-named _ h) in
      (s, rw h (rw e refl), fits s kept)

  IsFiled-report_run :
      IsFaithful D
      → (report : Option D.Report) (request : CreateRequest) (o : Opened) (e : Ending D)
      → (t : Tables D) → is_id o.investigation_id ≡ true
      → IsFiled o.investigation_id (report_run D report request o e t)
  unfolding report_run failed_record finished_record stored
  IsFiled-report_run faithful none request o e t h =
      filed faithful o.now
        (failed_record D request o (some e) "RuntimeError" "investigation did not produce a report")
        t h (rejected 500 "Investigation failed") (λ s kept. (refl, kept.ended))
  IsFiled-report_run faithful (some report) request o e t h =
      filed faithful o.now (finished_record D request o report e) t h
        (answered (finished_record D request o report e)) (λ s kept. kept)

  IsFiled-conclude_run :
      IsFaithful D
      → (request : CreateRequest) (o : Opened) (run : Run D) (t : Tables D)
      → is_id o.investigation_id ≡ true
      → IsFiled o.investigation_id (conclude_run D request o run t)
  unfolding conclude_run failed_record stored
  IsFiled-conclude_run faithful request o (returned e) t h =
      IsFiled-report_run faithful e.report request o e t h
  IsFiled-conclude_run faithful request o (raised name text) t h =
      filed faithful o.now (failed_record D request o none name text) t h
        (rejected 500 "Investigation failed") (λ s kept. (refl, kept.ended))

  -- However a run that was accepted ends, its identifier can be fetched afterwards: the answer is
  -- the record that is then fetched, or a server error, and then the record is of a failed
  -- investigation.
  pub get_investigation-create_investigation :
      IsFaithful D
      → (merchants : String → Bool) (request : CreateRequest) (o : Opened) (run : Run D)
      → (t : Tables D) → merchant_error merchants request.merchant_id ≡ none
      → is_id o.investigation_id ≡ true
      → IsFiled o.investigation_id (create_investigation D merchants request o run t)
  unfolding create_investigation run_unless
  get_investigation-create_investigation faithful merchants request o run t free h =
      rw free (IsFiled-conclude_run faithful request o run t h)

  -- The answer has a record with a report.
  abbrev pub IsReported : Answer (StoredInvestigation D) → Type 0
  IsReported (answered r) = is_some r.report ≡ true
  IsReported (rejected code detail) = ⊥

  IsReported-report_run :
      (report : Option D.Report) (request : CreateRequest) (o : Opened) (e : Ending D)
      → (t : Tables D) → is_some report ≡ true
      → IsReported (report_run D report request o e t).0
  unfolding report_run finished_record stored
  IsReported-report_run none request o e t h = absurd (false≢true h)
  IsReported-report_run (some report) request o e t h = refl

  is_some-ending_of :
      (A : Agents) (kept : A.Report → D.Report) (s : InvestigationState A)
      → is_some s.report ≡ true
      → is_some (ending_of D A kept s).report ≡ true
  unfolding ending_of
  is_some-ending_of A kept s h = ground arith

  -- An accepted request whose investigation the graph walks to its end is answered with a record
  -- that has a report, never with a server error, whatever the agents answer and the clock reads.
  pub create_investigation-walk :
      (A : Agents) (kept : A.Report → D.Report) (runtime : Runtime A)
      → (merchants : String → Bool) (request : CreateRequest) (o : Opened) (t : Tables D)
      → merchant_error merchants request.merchant_id ≡ none
      → (question : String) (max_iterations : ℕ) (merchant_id : Option String)
      → (input_method language response : String) (expanded : Option String) → (fuel : ℕ)
      → 6 * maximum max_iterations + 4 ≤ fuel
      → let s =
          initial_state A question max_iterations merchant_id input_method language response
            expanded in
        let run = returned (ending_of D A kept (walk runtime fuel (planner, s)).1) in
        IsReported (create_investigation D merchants request o run t).0
  unfolding create_investigation run_unless conclude_run
  create_investigation-walk A kept runtime merchants request o t free question max_iterations
        merchant_id input_method language response expanded fuel h =
      let complete =
        (walk-IsComplete runtime question max_iterations merchant_id input_method language response
          expanded fuel h).0 in
      rw (create_investigation, free)
        (IsReported-report_run _ request o _ t (is_some-ending_of A kept _ complete.reported))
