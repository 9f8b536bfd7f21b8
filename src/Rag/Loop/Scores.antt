-- ===== src/Rag/Loop/Scores.antt =====
-- packages/payops_core/rag/loop.py: what is kept of a search, what it lacks, and what it conflicts
-- with.
use payops_intelligence.Prelude.{
  ℕ, is_some, any, Bool, false, not, ◌&&◌, ◌==◌, any, is_some, Option, none, some, List, [], ◌∷◌,
  ◌++◌, map, String, str_eq, is_given, ◌<>◌, take_text, join, occurs, contains, filter, length,
  take, ltb, if◌then◌else◌,
}
use payops_intelligence.Prelude.Sort.{sort_by}
use payops_intelligence.Rag.Types.{SearchQuery, QueryAnalysis, Hint, Search, Kept}
use payops_intelligence.Rag.Tables.{known_codes, topic_hints, opposite_codes, codes_in}
use payops_intelligence.Rag.Rewrite.{same_type}

-- `_topic_doc_type`
abbrev pub doc_type_among : String → List Hint → Option String
doc_type_among topic [] = none
doc_type_among topic (hint ∷ hints) =
    if str_eq hint.topic topic then hint.doc_type else doc_type_among topic hints

unfoldable pub topic_doc_type : String → Option String
topic_doc_type topic = doc_type_among topic topic_hints

-- Whether an optional text is the text.
abbrev pub is_text : String → Option String → Bool
is_text s none = false
is_text s (some t) = str_eq t s

abbrev pub text_or_none : Option String → String
text_or_none none = "None"
text_or_none (some s) = s

module _ (Q : Search) where
  -- The hits that pass, with their scores.
  unfoldable pub judged : QueryAnalysis → SearchQuery → List Q.Hit → List (Q.Hit × Q.Score)
  judged analysis query [] = []
  judged analysis query (hit ∷ hits) =
      let (score, keep) = Q.relevance_score analysis query hit in
      let rest = judged analysis query hits in if keep then (hit, score) ∷ rest else rest

  abbrev pub item_of_hit : Q.Hit × Q.Score → Kept Q
  item_of_hit (hit, score) = record { found = Q.to_evidence hit; score = score }

  -- `kept[item.evidence_id] = item`, where there is none or one of a lower score.
  unfoldable pub keep : Kept Q → List (Kept Q) → List (Kept Q)
  keep item [] = item ∷ []
  keep item (old ∷ kept) =
      if str_eq old.found.evidence_id item.found.evidence_id
      then (if Q.above item.score old.score then item ∷ kept else old ∷ kept)
      else old ∷ keep item kept

  unfoldable pub keep_all : List (Q.Hit × Q.Score) → List (Kept Q) → List (Kept Q)
  unfolding keep
  keep_all [] kept = kept
  keep_all (hit ∷ hits) kept = keep_all hits (keep (item_of_hit hit) kept)

  unfoldable pub found_ids : List (Q.Hit × Q.Score) → List String
  found_ids ranked = map (λ h. (item_of_hit h).found.evidence_id) ranked

  abbrev pub texts_of : List (Kept Q) → List String
  texts_of kept = map (λ (k : Kept Q). k.found.text_snippet) kept

  -- A topic that has a type of document wants one of it; any other wants its name in a text.
  unfoldable pub lacks_topic : List (Kept Q) → String → String → Bool
  unfolding topic_doc_type is_given
  lacks_topic kept blob topic =
      let expected = topic_doc_type topic in
      if is_given expected
      then not (any (λ (k : Kept Q). same_type expected k.found.doc_type) kept)
      else not (occurs topic (Q.lower blob))

  -- `_missing_facets`
  unfoldable pub missing_facets : QueryAnalysis → List (Kept Q) → List String
  unfolding lacks_topic
  missing_facets analysis kept =
      let blob = Q.upper (join " " (texts_of kept)) in
      if length analysis.facets == 0
      then []
      else filter (λ code. not (occurs code blob)) analysis.error_codes
        ++ filter (lacks_topic kept blob) analysis.topics

  -- `_docs_sufficient`
  unfoldable pub docs_sufficient : List (Kept Q) → List String → ℕ → Bool
  docs_sufficient kept missing min_kept =
      if ltb (length kept) min_kept then false else length missing == 0

  -- The highest score first; items of one score keep their order.
  unfoldable pub ordered : List (Kept Q) → List (Kept Q)
  ordered kept = sort_by (λ (a : Kept Q) (b : Kept Q). not (Q.above b.score a.score)) kept

  abbrev pub only_code : List String → Option String
  only_code [] = none
  only_code (code ∷ []) = some code
  only_code (code ∷ d ∷ codes) = none

  abbrev pub section_code : Option String → String
  section_code none = Q.code_of_section ""
  section_code (some section) = Q.code_of_section section

  -- `_primary_code`
  unfoldable pub primary_code : Kept Q → Option String
  unfolding codes_in
  primary_code item =
      let section = section_code item.found.section in
      if contains known_codes section
      then some section
      else only_code (codes_in (Q.compact item.found.text_snippet))

  abbrev pub coded : Kept Q → Option String → List (Option String × Option String × String)
  coded item none = []
  coded item (some code) = (item.found.doc_id, item.found.section, code) ∷ []

  -- `primaries`
  unfoldable pub primaries : List (Kept Q) → List (Option String × Option String × String)
  unfolding primary_code
  primaries [] = []
  primaries (item ∷ items) = coded item (primary_code item) ++ primaries items

  abbrev pub is_opposed :
      Option String × Option String × String → Option String × Option String × String → Bool
  is_opposed (doc_id, section, code) (other_doc, other_section, other) =
      not (str_eq other code)
      && (contains (opposite_codes code) other
          && not (same_type doc_id other_doc && same_type section other_section))

  -- The first of the items that conflicts with one before it.
  abbrev pub opposed_note :
      Option String × Option String × String
      → List (Option String × Option String × String)
      → Option String
  opposed_note p [] = none
  opposed_note p (q ∷ rest) =
      if is_opposed p q then some (p.2 <> (" vs " <> q.2)) else opposed_note p rest

  abbrev pub note_or : Option String → Option String → Option String
  note_or none later = later
  note_or (some note) later = some note

  abbrev pub first_conflict : List (Option String × Option String × String) → Option String
  first_conflict [] = none
  first_conflict (p ∷ rest) = note_or (opposed_note p rest) (first_conflict rest)

  -- `_conflicts`
  unfoldable pub conflicts : List (Kept Q) → Bool × Option String
  unfolding primaries opposite_codes
  conflicts items = let note = first_conflict (primaries items) in (is_some note, note)

  abbrev pub excerpt_part : Kept Q → String
  excerpt_part item =
      (if is_given item.found.section
        then text_or_none item.found.section
        else text_or_none item.found.doc_id)
      <> (": "
          <> (take_text 180 item.found.text_snippet <> (" [" <> (item.found.evidence_id <> "]"))))

  -- `_grounded_excerpt`
  unfoldable pub grounded_excerpt : List (Kept Q) → Bool → Option String → String
  unfolding take_text join is_given
  grounded_excerpt [] conflicting remark = "No document evidence met the relevance threshold."
  grounded_excerpt (item ∷ items) conflicting remark =
      let text = join " " (map excerpt_part (take 3 (item ∷ items))) in
      if conflicting && is_given remark
      then text <> (" Conflicting sources remain unresolved (" <> (text_or_none remark <> ")."))
      else text
