-- ===== src/Tests/Rag.antt =====
-- The search loop on a concrete retriever.
use payops_intelligence.Prelude.{
  ℕ, ◌≤◌, max, ◌≡◌, refl, true, none, some, List, [], ◌∷◌, map, length, String, ltb, occurs, join,
  take_text, if◌then◌else◌,
}
use payops_intelligence.Rag.Types.{QueryAnalysis, FoundDocument, Search, SearchRound, SearchResult}
use payops_intelligence.Rag.Loop.Scores.{docs_sufficient, keep_all, judged, missing_facets}
use payops_intelligence.Rag.Loop.{run_agentic_rag}
use payops_intelligence.Rag.Loop.Rounds.{AreDistinct, run_agentic_rag-AreNew}

-- A text is its own document; every hit is kept with score 1, and the texts are in capitals.
abbrev document : String → FoundDocument
document text = record {
  evidence_id = text;
  doc_id = some "d1";
  section = none;
  text_snippet = text;
  doc_type = none;
}

abbrev library : Search
library = record {
  Hit = String;
  Score = ℕ;
  above = λ a b. ltb b a;
  retrieve = λ query doc_type.
      if occurs "runbook" query then "DO_NOT_HONOR: ASK THE BANK" ∷ [] else "REFUNDS" ∷ [];
  to_evidence = document;
  relevance_score = λ analysis query hit. (1, true);
  rerank = λ ranked. ranked;
  expand_query = λ s. s;
  strip = λ s. s;
  lower = λ s. s;
  upper = λ s. s;
  code_of_section = λ s. s;
  compact = λ s. s;
}

abbrev asked : QueryAnalysis
asked = record {
  question = "why DO_NOT_HONOR";
  facets = "DO_NOT_HONOR" ∷ [];
  error_codes = "DO_NOT_HONOR" ∷ [];
  topics = [];
}

abbrev searched : SearchResult library
searched = run_agentic_rag library "why DO_NOT_HONOR" [] asked 1 4

abbrev decisions : List String
decisions = map (λ (r : SearchRound). r.decision) searched.rounds

-- The code is not found, nor by the first rewrite; the second finds it.
three_rounds : decisions ≡ "rewrite" ∷ "rewrite" ∷ "sufficient" ∷ []
unfolding run_agentic_rag take_text join docs_sufficient keep_all judged missing_facets
three_rounds = refl

is_sufficient : searched.sufficient ≡ true
unfolding run_agentic_rag take_text join docs_sufficient keep_all judged missing_facets
is_sufficient = refl

exhausted :
    map (λ (r : SearchRound). r.decision) (run_agentic_rag library "why" [] asked 1 2).rounds
    ≡ "rewrite" ∷ "exhausted" ∷ []
unfolding run_agentic_rag take_text join docs_sufficient keep_all judged missing_facets
exhausted = refl

run_agentic_rag-AreNew_example :
    AreDistinct library searched.queries
    × (searched.iterations ≡ length searched.queries)
    × (searched.iterations ≤ max 1 4)
run_agentic_rag-AreNew_example = run_agentic_rag-AreNew library "why DO_NOT_HONOR" [] asked 1 4
