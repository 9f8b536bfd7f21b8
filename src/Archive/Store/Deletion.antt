-- ===== src/Archive/Store/Deletion.antt =====
-- What can be fetched after an investigation has been deleted.
use payops_intelligence.Prelude.{
  ◌≡◌, refl, ap, ◌≢◌, inl, inr, true, false, false≢true, not, Bool-cases, Option, none, some,
  is_some, Option-cases, List, [], ◌∷◌, String, str_eq, str_eq_of_ne, eq_of_str_eq, filter,
}
use payops_intelligence.Archive.Rows.{Documents, InvestigationRun, EvidenceRow, Tables}
use payops_intelligence.Archive.Index.{is_owned, evidence_of}
use payops_intelligence.Archive.Store.{
  find_run, from_row, get_found, get, is_run, delete_found, delete,
}

module _ (D : Documents) where
  find_run-filter_same :
      (id : String) (runs : List (InvestigationRun D))
      → find_run D id (filter (λ r. not (is_run D id r)) runs) ≡ none
  find_run-filter_same id [] = refl
  find_run-filter_same id (row ∷ runs) = elim (Bool-cases (str_eq row.investigation_id id)) [
    | inl e ↦ rw e (find_run-filter_same id runs)
    | inr e ↦ rw e (rw e (find_run-filter_same id runs))
  ]

  is_run_other :
      (id other : String)
      → other ≢ id
      → (name : String) → str_eq name other ≡ true
      → str_eq name id ≡ false
  is_run_other id other differ name e =
      rw (eq_of_str_eq name other e) (str_eq_of_ne other id differ)

  find_run-filter_other :
      (id other : String)
      → other ≢ id
      → (runs : List (InvestigationRun D))
      → find_run D other (filter (λ r. not (is_run D id r)) runs) ≡ find_run D other runs
  find_run-filter_other id other differ [] = refl
  find_run-filter_other id other differ (row ∷ runs) =
      let rest = find_run-filter_other id other differ runs in
      elim (Bool-cases (str_eq row.investigation_id other)) [
        | inl e ↦ rw (is_run_other id other differ row.investigation_id e) (rw e refl)
        | inr e ↦ elim (Bool-cases (str_eq row.investigation_id id)) [
          | inl gone ↦ rw gone (rw e rest)
          | inr left ↦ rw left (rw e rest)
        ]
      ]

  is_owned_other :
      (id other : String)
      → other ≢ id
      → (owner : Option String) → is_owned other owner ≡ true
      → is_owned id owner ≡ false
  unfolding is_owned
  is_owned_other id other differ none e = refl
  is_owned_other id other differ (some name) e = is_run_other id other differ name e

  evidence_of-filter_other :
      (id other : String)
      → other ≢ id
      → (rows : List (EvidenceRow D))
      → evidence_of D other
          (filter (λ (r : EvidenceRow D). not (is_owned id r.investigation_id)) rows)
        ≡ evidence_of D other rows
  unfolding evidence_of
  evidence_of-filter_other id other differ [] = refl
  evidence_of-filter_other id other differ (row ∷ rows) =
      let rest = evidence_of-filter_other id other differ rows in
      elim (Bool-cases (is_owned other row.investigation_id)) [
        | inl e ↦ rw (is_owned_other id other differ row.investigation_id e) (rw e (rw rest refl))
        | inr e ↦ elim (Bool-cases (is_owned id row.investigation_id)) [
          | inl gone ↦ rw gone (rw e rest)
          | inr left ↦ rw left (rw e rest)
        ]
      ]

  evidence_of-filter_same :
      (id : String) (rows : List (EvidenceRow D))
      → evidence_of D id (filter (λ (r : EvidenceRow D). not (is_owned id r.investigation_id)) rows)
        ≡ []
  unfolding evidence_of
  evidence_of-filter_same id [] = refl
  evidence_of-filter_same id (row ∷ rows) =
      let rest = evidence_of-filter_same id rows in
      elim (Bool-cases (is_owned id row.investigation_id)) [
        | inl e ↦ rw e rest
        | inr e ↦ rw e (rw e rest)
      ]

  abbrev deleted : String → Tables D → Tables D
  deleted id t = record {
    runs = filter (λ r. not (is_run D id r)) t.runs;
    evidence = filter (λ (r : EvidenceRow D). not (is_owned id r.investigation_id)) t.evidence;
  }

  others :
      (found : Option (InvestigationRun D)) (id other : String)
      → other ≢ id
      → (t : Tables D) → get_found D found other (deleted id t) ≡ get_found D found other t
  unfolding get_found
  others none id other differ t = refl
  others (some row) id other differ t =
      ap (λ evidence. some (from_row D row evidence))
        (evidence_of-filter_other id other differ t.evidence)

  -- Deleting an investigation reports whether it was there. Afterwards it cannot be fetched, no
  -- evidence row is owned by it if it was there, and every other investigation is fetched as it
  -- was, with its evidence.
  pub get-delete :
      (id : String) (t : Tables D)
      → let (found, t') = delete D id t in
        (found ≡ is_some (find_run D id t.runs))
        × (get D id t' ≡ none)
        × (found ≡ true → evidence_of D id t'.evidence ≡ [])
        × ((other : String) → other ≢ id → get D other t' ≡ get D other t)
  unfolding delete delete_found get get_found
  get-delete id t = elim (Option-cases (find_run D id t.runs)) [
    | inl e ↦ rw e (refl, rw e refl, (λ gone. absurd (false≢true gone)), λ other differ. refl)
    | inr (row, e) ↦ rw e (
      refl,
      rw (find_run-filter_same id t.runs) refl,
      (λ gone. evidence_of-filter_same id t.evidence),
      λ other differ.
          rw (find_run-filter_other id other differ t.runs)
            (others (find_run D other t.runs) id other differ t),
    )
  ]
