-- ===== src/Rag/Rewrite.antt =====
-- packages/payops_core/rag/rewrite.py: the next query.
use payops_intelligence.Prelude.{
  Bool, true, false, not, ◌&&◌, ◌||◌, Option, none, some, List, [], ◌∷◌, ◌++◌, String, str_eq,
  is_given, ◌<>◌, contains, any, if◌then◌else◌,
}
use payops_intelligence.Rag.Tables.{topic_hints}
use payops_intelligence.Rag.Types.{SearchQuery, QueryAnalysis, Hint, Search}

-- The pairs of a lowered query and a document type.
abbrev pub Used : Type 0
Used = List (String × Option String)

abbrev pub same_type : Option String → Option String → Bool
same_type none none = true
same_type none (some t) = false
same_type (some s) none = false
same_type (some s) (some t) = str_eq s t

abbrev pub same_search : String × Option String → String × Option String → Bool
same_search (query, doc_type) (query', doc_type') =
    str_eq query query' && same_type doc_type doc_type'

module _ (Q : Search) where
  abbrev pub search_key : SearchQuery → String × Option String
  search_key q = (Q.lower q.query, q.doc_type)

  -- `_unused`
  unfoldable pub unused : Used → SearchQuery → Bool
  unused used q = not (any (same_search (search_key q)) used)

  -- `next(q for q in queries if _unused(q, used))`, or none.
  abbrev pub first_unused : Used → List SearchQuery → Option SearchQuery
  first_unused used [] = none
  first_unused used (q ∷ queries) = if unused used q then some q else first_unused used queries

  -- The candidates of one facet's error code.
  unfoldable pub code_candidates : QueryAnalysis → String → List SearchQuery
  code_candidates analysis facet =
      if contains analysis.error_codes facet
      then record {
        query = facet <> " processor incident";
        doc_type = some "error_codes";
        rationale = "cover missing error-code facet " <> facet;
      }
        ∷ record {
          query = facet <> " runbook timeout failure";
          doc_type = some "runbook";
          rationale = "runbook rewrite for " <> facet;
        }
        ∷ []
      else []

  unfoldable pub hint_candidates : String → List Hint → List SearchQuery
  hint_candidates facet [] = []
  hint_candidates facet (hint ∷ hints) =
      (if str_eq facet hint.topic || contains hint.needles facet
        then record {
          query = hint.extra_query;
          doc_type = hint.doc_type;
          rationale = "cover missing topic " <> hint.topic;
        }
          ∷ []
        else [])
      ++ hint_candidates facet hints

  unfoldable pub facet_candidates : QueryAnalysis → List String → List SearchQuery
  unfolding code_candidates hint_candidates
  facet_candidates analysis [] = []
  facet_candidates analysis (facet ∷ facets) =
      code_candidates analysis facet
      ++ (hint_candidates facet topic_hints ++ facet_candidates analysis facets)

  -- The candidates after a search without results.
  unfoldable pub broader_candidates : QueryAnalysis → SearchQuery → List SearchQuery
  unfolding is_given
  broader_candidates analysis current =
      record {
        query = Q.expand_query analysis.question;
        doc_type = none;
        rationale = "broaden after empty retrieval";
      }
      ∷ (if is_given current.doc_type
          then record {
            query = current.query;
            doc_type = none;
            rationale = "retry without doc_type filter";
          }
            ∷ []
          else [])

  -- The original question, where there is no other candidate.
  unfoldable pub or_original : QueryAnalysis → SearchQuery → List SearchQuery → List SearchQuery
  or_original analysis current (q ∷ queries) = q ∷ queries
  or_original analysis current [] =
      if str_eq current.query analysis.question
      then []
      else record {
        query = analysis.question;
        doc_type = none;
        rationale = "fall back to original question";
      }
        ∷ []

  unfoldable pub candidates :
      QueryAnalysis
      → SearchQuery
      → (missing_facets : List String) → (no_results : Bool) → List SearchQuery
  unfolding facet_candidates broader_candidates or_original
  candidates analysis current missing no_results = or_original analysis current (
      facet_candidates analysis missing
      ++ (if no_results then broader_candidates analysis current else []))

  abbrev pub with_rationale : SearchQuery → SearchQuery
  with_rationale seed = record seed {
    rationale = if str_eq seed.rationale "" then "unused seed query" else seed.rationale;
  }

  abbrev pub seed_or : Option SearchQuery → Option SearchQuery → Option SearchQuery
  seed_or none other = other
  seed_or (some seed) other = some (with_rationale seed)

  unfoldable pub rewrite_query :
      QueryAnalysis
      → SearchQuery
      → (missing_facets : List String) → Used
      → (seed_queries : List SearchQuery) → (no_results : Bool) → Option SearchQuery
  unfolding unused candidates
  rewrite_query analysis current missing used seeds no_results =
      seed_or (first_unused used seeds)
        (first_unused used (candidates analysis current missing no_results))
