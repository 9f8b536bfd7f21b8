-- ===== src/Archive/Index.antt =====
-- apps/api/store.py: the evidence index, `_upsert_evidence`, `index_evidence` and `get_evidence`.
pub mod Lookup
use payops_intelligence.Prelude.{
  Bool, true, false, not, Option, none, some, List, [], ◌∷◌, map, String, str_eq, is_given, filter,
  if◌then◌else◌,
}
use payops_intelligence.Graph.Types.{EvidenceItem}
use payops_intelligence.Archive.Rows.{Documents, EvidenceRow}

-- `EvidenceIndex.investigation_id == id`, which is not true of NULL.
unfoldable pub is_owned : String → Option String → Bool
is_owned id none = false
is_owned id (some owner) = str_eq owner id

-- The owner of a row that is written for `new`, before which it had `old`.
unfoldable pub owner_after : (new old : Option String) → Option String
unfolding is_given
owner_after new old = if is_given new then new else old

-- `investigation_id is None and row.investigation_id`
unfoldable pub is_protected : (new old : Option String) → Bool
unfolding is_given
is_protected none old = is_given old
is_protected (some id) old = false

module _ (D : Documents) where
  unfoldable pub rewritten : EvidenceItem → Option String → EvidenceRow D → EvidenceRow D
  unfolding is_protected owner_after
  rewritten item owner row = if is_protected owner row.investigation_id then row else record row {
    investigation_id = owner_after owner row.investigation_id;
    payload_json = D.dump_item item;
  }

  abbrev pub new_row : EvidenceItem → Option String → EvidenceRow D
  new_row item owner = record {
    evidence_id = item.evidence_id;
    investigation_id = owner;
    payload_json = D.dump_item item;
  }

  -- `_upsert_evidence`
  unfoldable pub upsert_evidence :
      EvidenceItem → Option String → List (EvidenceRow D) → List (EvidenceRow D)
  unfolding rewritten
  upsert_evidence item owner [] = new_row item owner ∷ []
  upsert_evidence item owner (row ∷ rows) =
      if str_eq row.evidence_id item.evidence_id
      then rewritten item owner row ∷ rows
      else row ∷ upsert_evidence item owner rows

  -- The loops of `put` and `index_evidence`.
  unfoldable pub upsert_all :
      List EvidenceItem → Option String → List (EvidenceRow D) → List (EvidenceRow D)
  unfolding upsert_evidence
  upsert_all [] owner rows = rows
  upsert_all (item ∷ items) owner rows = upsert_all items owner (upsert_evidence item owner rows)

  -- `session.get(EvidenceIndex, evidence_id)`
  abbrev pub find_row : String → List (EvidenceRow D) → Option (EvidenceRow D)
  find_row id [] = none
  find_row id (row ∷ rows) = if str_eq row.evidence_id id then some row else find_row id rows

  -- The items of the rows that an investigation owns.
  unfoldable pub evidence_of : String → List (EvidenceRow D) → List EvidenceItem
  unfolding is_owned
  evidence_of id rows =
      map (λ (row : EvidenceRow D). D.load_item row.payload_json)
        (filter (λ (row : EvidenceRow D). is_owned id row.investigation_id) rows)

  unfoldable pub item_of : Option (EvidenceRow D) → Option EvidenceItem
  item_of none = none
  item_of (some row) = some (D.load_item row.payload_json)

  unfoldable pub get_evidence : String → List (EvidenceRow D) → Option EvidenceItem
  unfolding item_of
  get_evidence id rows = item_of (find_row id rows)
