-- ===== src/Graph/Tasks/Merge.antt =====
-- `_merge_evidence` against an independent account of it.
use payops_intelligence.Prelude.{
  ◌≤◌, ◌≡◌, refl, sym, subst, ap, ◌∙◌, Bool, true, false, false≢true, Bool-cases, inl, inr, Option,
  none, some, List, [], ◌∷◌, String, str_eq, str_eq_refl, eq_of_str_eq, arith, if◌then◌else◌,
}
use payops_intelligence.Prelude.Lists.{filter, length}
use payops_intelligence.Graph.Types.{EvidenceItem}
use payops_intelligence.Graph.Tasks.{put_item, put_items, merge_evidence}

abbrev pub has_id : String → EvidenceItem → Bool
has_id id item = str_eq item.evidence_id id

-- The last item with the identifier, or else the one before.
abbrev pub latest : String → Option EvidenceItem → List EvidenceItem → Option EvidenceItem
latest id found [] = found
latest id found (item ∷ items) = latest id (if has_id id item then some item else found) items

abbrev pub as_list : Option EvidenceItem → List EvidenceItem
as_list none = []
as_list (some item) = item ∷ []

nil_of_length : (items : List EvidenceItem) → length items ≤ 0 → items ≡ []
nil_of_length [] h = refl
nil_of_length (item ∷ items) h = absurd (omega arith)

length-as_list : (found : Option EvidenceItem) → length (as_list found) ≤ 1
length-as_list none = omega arith
length-as_list (some item) = omega arith

has_id_same :
    (old item : EvidenceItem) (id : String)
    → str_eq old.evidence_id item.evidence_id ≡ true
    → has_id id old ≡ has_id id item
has_id_same old item id same = ap (λ e. str_eq e id) (eq_of_str_eq _ _ same)

has_id_other :
    (old item : EvidenceItem) (id : String)
    → str_eq old.evidence_id item.evidence_id ≡ false
    → has_id id item ≡ true
    → has_id id old ≡ false
has_id_other old item id differ here = elim (Bool-cases (has_id id old)) [
  | inl there ↦ absurd (
      false≢true (
        sym differ
        ∙ ap (λ e. str_eq old.evidence_id e) (eq_of_str_eq _ _ here ∙ sym (eq_of_str_eq _ _ there))
        ∙ str_eq_refl old.evidence_id))
  | inr away ↦ away
]

rest_nil :
    (id : String) (old : EvidenceItem) (known : List EvidenceItem)
    → has_id id old ≡ true
    → length (filter (has_id id) (old ∷ known)) ≤ 1
    → filter (has_id id) known ≡ []
rest_nil id old known here few = nil_of_length (filter (has_id id) known) (ground arith)

few_other :
    (id : String) (old : EvidenceItem) (known : List EvidenceItem)
    → has_id id old ≡ false
    → length (filter (has_id id) (old ∷ known)) ≤ 1
    → length (filter (has_id id) known) ≤ 1
few_other id old known away few = ground arith

filter-put_other :
    (id : String) (item : EvidenceItem) (known : List EvidenceItem)
    → has_id id item ≡ false
    → filter (has_id id) (put_item item known) ≡ filter (has_id id) known
unfolding put_item
filter-put_other id item [] other = rw other refl
filter-put_other id item (old ∷ known) other =
    elim (Bool-cases (str_eq old.evidence_id item.evidence_id)) [
      | inl same ↦ rw same (rw other (rw (has_id_same old item id same ∙ other) refl))
      | inr differ ↦ rw differ (rw (filter-put_other id item known other) refl)
    ]

filter-put_same :
    (id : String) (item : EvidenceItem) (known : List EvidenceItem)
    → has_id id item ≡ true
    → length (filter (has_id id) known) ≤ 1
    → filter (has_id id) (put_item item known) ≡ item ∷ []
unfolding put_item
filter-put_same id item [] same few = rw same refl
filter-put_same id item (old ∷ known) same few =
    elim (Bool-cases (str_eq old.evidence_id item.evidence_id)) [
      | inl equal ↦ rw equal (
          rw same (
            ap (λ rest. item ∷ rest)
              (rest_nil id old known (has_id_same old item id equal ∙ same) few)))
      | inr differ ↦ rw differ (
          rw (has_id_other old item id differ same) (
            filter-put_same id item known same
              (few_other id old known (has_id_other old item id differ same) few)))
    ]

filter-put_item :
    (id : String) (item : EvidenceItem) (known : List EvidenceItem) (found : Option EvidenceItem)
    → filter (has_id id) known ≡ as_list found
    → filter (has_id id) (put_item item known)
      ≡ as_list (if has_id id item then some item else found)
filter-put_item id item known found h = elim (Bool-cases (has_id id item)) [
  | inl here ↦ rw here (
      filter-put_same id item known here
        (subst (λ found. length found ≤ 1) (sym h) (length-as_list found)))
  | inr away ↦ rw away (filter-put_other id item known away ∙ h)
]

filter-put_items :
    (id : String) (items known : List EvidenceItem) (found : Option EvidenceItem)
    → filter (has_id id) known ≡ as_list found
    → filter (has_id id) (put_items items known) ≡ as_list (latest id found items)
unfolding put_items
filter-put_items id [] known found h = h
filter-put_items id (item ∷ items) known found h =
    filter-put_items id items (put_item item known) _ (filter-put_item id item known found h)

-- Merging leaves, for each identifier, the last item that the old evidence and the new items
-- together have under it, once, and nothing under an identifier that neither has.
pub filter-merge_evidence :
    (id : String) (bundle items : List EvidenceItem)
    → filter (has_id id) (merge_evidence bundle items)
      ≡ as_list (latest id (latest id none bundle) items)
unfolding merge_evidence
filter-merge_evidence id bundle items =
    filter-put_items id items (put_items bundle []) _ (filter-put_items id bundle [] none refl)
