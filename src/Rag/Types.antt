-- ===== src/Rag/Types.antt =====
-- The values of the search loop (packages/payops_core/models/schemas.py), without latencies, and
-- what the loop takes from the retriever, the relevance scores and the text methods of Python.
use payops_intelligence.Prelude.{ℕ, Bool, Option, List, String}

pub record SearchQuery : Type 0 where
  pub query : String
  pub doc_type : Option String
  pub rationale : String

pub record QueryAnalysis : Type 0 where
  pub question : String
  pub facets : List String
  pub error_codes : List String
  pub topics : List String

-- An entry of `TOPIC_HINTS`.
pub record Hint : Type 0 where
  pub needles : List String
  pub extra_query : String
  pub doc_type : Option String
  pub topic : String

-- A hit as `to_evidence` gives it.
pub record FoundDocument : Type 0 where
  pub evidence_id : String
  pub doc_id : Option String
  pub section : Option String
  pub text_snippet : String
  pub doc_type : Option String

pub record Search : Type 1 where
  pub Hit : Type 0
  -- Relevance scores are floating-point numbers; `above` is `>` on them.
  pub Score : Type 0
  pub above : Score → Score → Bool
  pub retrieve : String → Option String → List Hit
  pub to_evidence : Hit → FoundDocument
  -- `relevance_score`: the score, and whether the hit is kept.
  pub relevance_score : QueryAnalysis → SearchQuery → Hit → Score × Bool
  pub rerank : List (Hit × Score) → List (Hit × Score)
  pub expand_query : String → String
  -- `str.strip`, `str.lower`, `str.upper`, `s.upper().replace(" ", "_")`, and the same after
  -- `.replace("-", "_")`.
  pub strip : String → String
  pub lower : String → String
  pub upper : String → String
  pub code_of_section : String → String
  pub compact : String → String

-- An item that is kept, with its score.
pub record Kept (Q : Search) : Type 0 where
  pub found : FoundDocument
  pub score : Q.Score

pub record SearchRound : Type 0 where
  pub search_index : ℕ
  pub query : String
  pub rewritten_from : Option String
  pub rewrite_reason : Option String
  pub retrieved : ℕ
  pub kept : ℕ
  pub rejected : ℕ
  pub sufficient : Bool
  pub decision : String
  pub evidence_ids : List String
  pub missing_facets : List String

pub record SearchResult (Q : Search) : Type 0 where
  pub rounds : List SearchRound
  pub iterations : ℕ
  pub max_iterations : ℕ
  pub sufficient : Bool
  pub conflicting : Bool
  pub conflict_note : Option String
  pub queries : List SearchQuery
  pub items : List (Kept Q)
  pub citations : List String
  pub grounded_excerpt : String
  pub rejected_count : ℕ
  pub sources_verified : Bool
