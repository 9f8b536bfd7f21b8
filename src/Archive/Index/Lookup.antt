-- ===== src/Archive/Index/Lookup.antt =====
-- What the evidence index holds under each identifier, against a map from identifiers to rows.
use payops_intelligence.Prelude.{
  ◌≡◌, refl, ap, sym, ◌∙◌, inl, inr, Bool-cases, Option, none, some, List, [], ◌∷◌, String, str_eq,
  eq_of_str_eq, str_eq_other, is_given, arith, true, if◌then◌else◌,
}
use payops_intelligence.Graph.Types.{EvidenceItem}
use payops_intelligence.Graph.Tasks.Merge.{has_id, latest}
use payops_intelligence.Archive.Rows.{Documents, IsFaithful, EvidenceRow}
use payops_intelligence.Archive.Index.{
  is_protected, owner_after, rewritten, upsert_evidence, upsert_all, find_row, item_of,
  get_evidence,
}

module _ (D : Documents) where
  -- One identifier's entry in the map: what an item written for an owner leaves of it.
  abbrev pub entry_after :
      EvidenceItem → Option String → Option (EvidenceRow D) → Option (EvidenceRow D)
  entry_after item owner none = some (record {
    evidence_id = item.evidence_id;
    investigation_id = owner;
    payload_json = D.dump_item item;
  })
  entry_after item none (some row) =
      if is_given row.investigation_id
      then some row
      else some (record row { payload_json = D.dump_item item })
  entry_after item (some owner) (some row) = some (record row {
    investigation_id = if str_eq owner "" then row.investigation_id else some owner;
    payload_json = D.dump_item item;
  })

  entry_after-rewritten :
      (item : EvidenceItem) (owner : Option String) (row : EvidenceRow D)
      → entry_after item owner (some row) ≡ some (rewritten D item owner row)
  unfolding rewritten is_protected owner_after is_given
  entry_after-rewritten item none row = ground arith
  entry_after-rewritten item (some owner) row = ground arith

  -- The items of the list under the identifier, written one after another.
  abbrev pub entry_after_all :
      String → List EvidenceItem → Option String → Option (EvidenceRow D) → Option (EvidenceRow D)
  entry_after_all id [] owner entry = entry
  entry_after_all id (item ∷ items) owner entry =
      entry_after_all id items owner
        (if has_id id item then entry_after item owner entry else entry)

  rewritten-evidence_id :
      (item : EvidenceItem) (owner : Option String) (row : EvidenceRow D)
      → (rewritten D item owner row).evidence_id ≡ row.evidence_id
  unfolding rewritten
  rewritten-evidence_id item owner row =
      elim (Bool-cases (is_protected owner row.investigation_id)) [
        | inl e ↦ rw e refl
        | inr e ↦ rw e refl
      ]

  find_row-upsert_evidence :
      (id : String) (item : EvidenceItem) (owner : Option String) (rows : List (EvidenceRow D))
      → find_row D id (upsert_evidence D item owner rows) ≡ (
          if has_id id item
          then entry_after item owner (find_row D id rows)
          else find_row D id rows)
  unfolding upsert_evidence
  find_row-upsert_evidence id item owner [] = refl
  find_row-upsert_evidence id item owner (row ∷ rows) =
      let rest = find_row-upsert_evidence id item owner rows in
      elim (Bool-cases (str_eq row.evidence_id item.evidence_id)) [
        | inl same ↦
            let here = ap (λ e. str_eq e id) (eq_of_str_eq _ _ same) in
            elim (Bool-cases (has_id id item)) [
              | inl e ↦ rw same (
                  rw (rewritten-evidence_id item owner row)
                    (rw here (rw e (sym (entry_after-rewritten item owner row)))))
              | inr e ↦ rw same (rw (rewritten-evidence_id item owner row) (rw here (rw e refl)))
            ]
        | inr differ ↦ elim (Bool-cases (str_eq row.evidence_id id)) [
          | inl here ↦ rw differ (rw here (rw (str_eq_other row.evidence_id _ id differ here) refl))
          | inr e ↦ rw differ (rw e rest)
        ]
      ]

  pub find_row-entries :
      (id : String) (items : List EvidenceItem) (owner : Option String)
      (rows : List (EvidenceRow D))
      → find_row D id (upsert_all D items owner rows)
        ≡ entry_after_all id items owner (find_row D id rows)
  unfolding upsert_all
  find_row-entries id [] owner rows = refl
  find_row-entries id (item ∷ items) owner rows =
      find_row-entries id items owner (upsert_evidence D item owner rows)
      ∙ ap (entry_after_all id items owner) (find_row-upsert_evidence id item owner rows)

  -- Items written for nobody leave a row alone that has an owner.
  entry_after_all-owned :
      (id : String) (items : List EvidenceItem) (row : EvidenceRow D)
      → is_given row.investigation_id ≡ true
      → entry_after_all id items none (some row) ≡ some row
  entry_after_all-owned id [] row owned = refl
  entry_after_all-owned id (item ∷ items) row owned =
      let rest = entry_after_all-owned id items row owned in
      elim (Bool-cases (has_id id item)) [ inl e ↦ rw e (rw owned rest) | inr e ↦ rw e rest ]

  -- Writing items changes the index as it changes the map: under every identifier stands what its
  -- own items, taken in their order, make of what stood there before. An item without a row gets
  -- one; written for an owner it replaces the text and, if the owner is not empty, the owner;
  -- written for nobody it replaces the text of a row that has no owner, and a row that has one
  -- stays as it was, whatever is written.
  pub find_row-upsert_all :
      (id : String) (items : List EvidenceItem) (owner : Option String)
      (rows : List (EvidenceRow D))
      → (find_row D id (upsert_all D items owner rows)
          ≡ entry_after_all id items owner (find_row D id rows))
        × ((row : EvidenceRow D)
            → find_row D id rows ≡ some row
            → is_given row.investigation_id ≡ true
            → find_row D id (upsert_all D items none rows) ≡ some row)
  find_row-upsert_all id items owner rows = (
    find_row-entries id items owner rows,
    λ row found owned.
        find_row-entries id items none rows ∙ rw found (entry_after_all-owned id items row owned),
  )

  item_of-entry_after :
      IsFaithful D
      → (id : String) (item : EvidenceItem) (owner : String) (entry : Option (EvidenceRow D))
      → item_of D (entry_after item (some owner) entry) ≡ some item
  unfolding item_of
  item_of-entry_after faithful id item owner none = ap some (faithful.load-dump_item item)
  item_of-entry_after faithful id item owner (some row) = ap some (faithful.load-dump_item item)

  item_of-entry_after_all :
      IsFaithful D
      → (id owner : String) (items : List EvidenceItem) (entry : Option (EvidenceRow D))
      → item_of D (entry_after_all id items (some owner) entry) ≡ latest id (item_of D entry) items
  item_of-entry_after_all faithful id owner [] entry = refl
  item_of-entry_after_all faithful id owner (item ∷ items) entry =
      elim (Bool-cases (has_id id item)) [
        | inl e ↦ rw e (
            item_of-entry_after_all faithful id owner items (entry_after item (some owner) entry)
            ∙ ap (λ found. latest id found items)
                (item_of-entry_after faithful id item owner entry))
        | inr e ↦ rw e (item_of-entry_after_all faithful id owner items entry)
      ]

  -- After items are written for an investigation, an identifier names the last of them that has
  -- it, or else what it named before.
  get_evidence-upsert_all :
      IsFaithful D
      → (id owner : String) (items : List EvidenceItem) (rows : List (EvidenceRow D))
      → get_evidence D id (upsert_all D items (some owner) rows)
        ≡ latest id (get_evidence D id rows) items
  unfolding get_evidence
  get_evidence-upsert_all faithful id owner items rows =
      ap (item_of D) (find_row-entries id items (some owner) rows)
      ∙ item_of-entry_after_all faithful id owner items (find_row D id rows)
