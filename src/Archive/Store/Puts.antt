-- ===== src/Archive/Store/Puts.antt =====
-- What can be fetched after an investigation has been put.
use payops_intelligence.Prelude.{
  ◌≡◌, refl, ap, ◌∙◌, ◌≢◌, ◌⊎◌, inl, inr, Bool-cases, Option, none, some, List, [], ◌∷◌, map, ℕ,
  String, str_eq, str_eq_refl, str_eq_of_ne, arith, is_given, if◌then◌else◌,
}
use payops_intelligence.Graph.Types.{EvidenceItem, TraceEvent}
use payops_intelligence.Graph.Tasks.Merge.{has_id, latest}
use payops_intelligence.Auth.Rows.{some_injective}
use payops_intelligence.Archive.Rows.{
  Documents, IsFaithful, InvestigationRun, EvidenceRow, Tables, StoredInvestigation, stored,
}
use payops_intelligence.Archive.Index.{
  is_owned, owner_after, is_protected, rewritten, upsert_all, find_row, evidence_of,
}
use payops_intelligence.Archive.Index.Lookup.{entry_after, entry_after_all, find_row-entries}
use payops_intelligence.Archive.Store.{
  find_run, row_of, put_run, put, loaded, dumped, from_row, get_found, get,
}

-- Membership of an item in the evidence.
abbrev pub IsIn : EvidenceItem → List EvidenceItem → Type 0
IsIn item [] = ⊥
IsIn item (i ∷ items) = (i ≡ item) ⊎ IsIn item items

latest_found :
    (id : String) (found : Option EvidenceItem) (items : List EvidenceItem) (item : EvidenceItem)
    → latest id none items ≡ some item
    → latest id found items ≡ some item
latest_found id found [] item h = absurd cc
latest_found id found (i ∷ items) item h = elim (Bool-cases (has_id id i)) [
  | inl e ↦ rw e (rw e at h)
  | inr e ↦ rw e (latest_found id found items item (rw e at h))
]

module _ (D : Documents) where
  -- The item under an entry that the investigation owns.
  abbrev owned_item : String → Option (EvidenceRow D) → Option EvidenceItem
  owned_item own none = none
  owned_item own (some row) =
      if is_owned own row.investigation_id then some (D.load_item row.payload_json) else none

  owned_item-entry_after :
      IsFaithful D
      → (own : String) → own ≢ ""
      → (item : EvidenceItem) (entry : Option (EvidenceRow D))
      → owned_item own (entry_after D item (some own) entry) ≡ some item
  unfolding is_owned rewritten is_protected owner_after is_given
  owned_item-entry_after faithful own named item none =
      rw (str_eq_refl own) (ap some (faithful.load-dump_item item))
  owned_item-entry_after faithful own named item (some row) =
      rw (str_eq_of_ne own "" named) (rw (str_eq_refl own) (ap some (faithful.load-dump_item item)))

  owned_item-entry_after_all :
      IsFaithful D
      → (own : String) → own ≢ ""
      → (id : String) (items : List EvidenceItem) (entry : Option (EvidenceRow D))
      → owned_item own (entry_after_all D id items (some own) entry)
        ≡ latest id (owned_item own entry) items
  owned_item-entry_after_all faithful own named id [] entry = refl
  owned_item-entry_after_all faithful own named id (item ∷ items) entry =
      elim (Bool-cases (has_id id item)) [
        | inl e ↦ rw e (
            owned_item-entry_after_all faithful own named id items
              (entry_after D item (some own) entry)
            ∙ ap (λ found. latest id found items)
                (owned_item-entry_after faithful own named item entry))
        | inr e ↦ rw e (owned_item-entry_after_all faithful own named id items entry)
      ]

  IsIn-evidence_of :
      (own id : String) (item : EvidenceItem) (rows : List (EvidenceRow D))
      → owned_item own (find_row D id rows) ≡ some item
      → IsIn item (evidence_of D own rows)
  unfolding evidence_of
  IsIn-evidence_of own id item [] h = absurd cc
  IsIn-evidence_of own id item (row ∷ rows) h = elim (Bool-cases (str_eq row.evidence_id id)) [
    | inl here ↦ elim (Bool-cases (is_owned own row.investigation_id)) [
      | inl mine ↦ rw mine (inl (some_injective _ _ (rw (here, mine) at h)))
      | inr other ↦ absurd (ground arith)
    ]
    | inr away ↦
        let later = IsIn-evidence_of own id item rows (rw away at h) in
        elim (Bool-cases (is_owned own row.investigation_id)) [
          | inl mine ↦ rw mine (inr later)
          | inr other ↦ rw other later
        ]
  ]

  find_run-put_run :
      (now : ℕ) (r : StoredInvestigation D) (runs : List (InvestigationRun D))
      → (created : ℕ) × (find_run D r.investigation_id (put_run D now r runs)
          ≡ some (row_of D now created r))
  unfolding put_run row_of
  find_run-put_run now r [] = (r.created_at, rw (str_eq_refl r.investigation_id) refl)
  find_run-put_run now r (row ∷ runs) =
      elim (Bool-cases (str_eq row.investigation_id r.investigation_id)) [
        | inl same ↦ (row.created_at, rw same (rw (str_eq_refl r.investigation_id) refl))
        | inr differ ↦
            let (created, e) = find_run-put_run now r runs in (created, rw differ (rw differ e))
      ]

  map_load :
      IsFaithful D → (trace : List TraceEvent) → map D.load_event (map D.dump_event trace) ≡ trace
  map_load faithful [] = refl
  map_load faithful (event ∷ trace) =
      rw (faithful.load-dump_event event) (rw (map_load faithful trace) refl)

  loaded-dumped : IsFaithful D → (report : Option D.Report) → loaded D (dumped D report) ≡ report
  loaded-dumped faithful none = refl
  loaded-dumped faithful (some report) = rw (faithful.load-dump_report report) refl

  -- What `get` gives back of an investigation that was put.
  pub record IsKept (r s : StoredInvestigation D) : Type 0 where
    pub identified : s.investigation_id ≡ r.investigation_id
    pub asked : s.question ≡ r.question
    pub ended : s.status ≡ r.status
    pub reported : s.report ≡ r.report
    pub traced : s.trace ≡ r.trace
    pub failed : s.error ≡ r.error
    pub cited :
        (id : String) (item : EvidenceItem)
        → latest id none r.evidence ≡ some item
        → IsIn item s.evidence

  -- An investigation that was put under a name that is not empty can be fetched by it, with its
  -- question, status, report, trace and error, and with every item of its evidence, the last one
  -- where several have one identifier.
  pub get-put :
      IsFaithful D
      → (now : ℕ) (r : StoredInvestigation D) (t : Tables D) → r.investigation_id ≢ ""
      → (s : StoredInvestigation D) × (get D r.investigation_id (put D now r t) ≡ some s)
        × IsKept r s
  unfolding get get_found put from_row stored row_of
  get-put faithful now r t named =
      let (created, e) = find_run-put_run now r t.runs in
      let evidence = upsert_all D r.evidence (some r.investigation_id) t.evidence in
      (
        from_row D (row_of D now created r) (evidence_of D r.investigation_id evidence),
        rw e refl,
        record {
          identified = refl;
          asked = refl;
          ended = refl;
          reported = loaded-dumped faithful r.report;
          traced = map_load faithful r.trace;
          failed = refl;
          cited = λ id item h. IsIn-evidence_of r.investigation_id id item evidence (
              ap (owned_item r.investigation_id)
                (find_row-entries D id r.evidence (some r.investigation_id) t.evidence)
              ∙ owned_item-entry_after_all faithful r.investigation_id named id r.evidence
                  (find_row D id t.evidence)
              ∙ latest_found id _ r.evidence item h);
        },
      )
