-- ===== src/Rag/Loop/Verdict.antt =====
-- What a search that is called sufficient has found.
use payops_intelligence.Prelude.{
  ◌≢◌, some, All, occurs, join, contains, ℕ, ◌≤◌, ◌≡◌, true, List, [], ◌∷◌, String, length,
}
use mathlib.Core.List.{Perm}
use payops_intelligence.Rag.Types.{
  SearchQuery, QueryAnalysis, Search, Kept, SearchRound, SearchResult,
}
use payops_intelligence.Rag.Tables.{opposite_codes}
use payops_intelligence.Rag.Loop.Scores.{missing_facets, texts_of, primary_code}
use payops_intelligence.Rag.Loop.{SearchProgress, last_sufficient, conclude_search}

-- The facets that the last round lacks.
abbrev pub last_missing : List SearchRound → List String
last_missing [] = []
last_missing (r ∷ []) = r.missing_facets
last_missing (r ∷ s ∷ rounds) = last_missing (s ∷ rounds)

-- Every error code of the question is named in the texts kept, unless the question has no facet.
abbrev pub IsCovered : (Q : Search) → QueryAnalysis → List (Kept Q) → Type 0
IsCovered Q analysis kept =
    analysis.facets ≢ []
    → All (λ code. occurs code (Q.upper (join " " (texts_of Q kept))) ≡ true) analysis.error_codes

-- The items, in the order in which they were kept, name every error code.
abbrev pub IsFound : (Q : Search) → QueryAnalysis → List (Kept Q) → Type 0
IsFound Q analysis items = (kept : List (Kept Q)) × Perm items kept × IsCovered Q analysis kept

module _ (Q : Search) where
  -- The items are about opposite codes, and do not come from one section of one document.
  abbrev pub Clash : Kept Q → Kept Q → Type 0
  Clash k l =
      (code other : String) × (primary_code Q k ≡ some code)
      × (primary_code Q l ≡ some other)
      × (other ≢ code)
      × (contains (opposite_codes code) other ≡ true)
      × ¬ ((k.found.doc_id ≡ l.found.doc_id) × (k.found.section ≡ l.found.section))

  -- No item clashes with a later one.
  abbrev pub AreAgreed : List (Kept Q) → Type 0
  AreAgreed [] = Unit
  AreAgreed (k ∷ items) = All (λ l. ¬ (Clash k l)) items × AreAgreed items

module _ (Q : Search) (analysis : QueryAnalysis) (seeds : List SearchQuery)
    (min_kept maximum : ℕ) where
  -- A last round that is sufficient has left enough items, and lacks no facet.
  abbrev IsJudged : SearchProgress Q → Type 0
  IsJudged p =
      last_sufficient p.rounds ≡ true
      → (min_kept ≤ length p.kept) × (last_missing p.rounds ≡ []) × IsCovered Q analysis p.kept

  abbrev concluded : SearchProgress Q → SearchResult Q
  concluded p = conclude_search Q analysis seeds min_kept maximum p
