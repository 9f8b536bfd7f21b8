-- ===== src/Rag/Loop.antt =====
-- packages/payops_core/rag/loop.py. A dictionary of items is a list in insertion order.
pub mod Scores
pub mod Rounds
pub mod Verdict
use payops_intelligence.Prelude.{
  ℕ, zero, suc, ◌+◌, ◌-◌, Bool, true, false, not, ◌&&◌, ◌||◌, Option, none, some, List, [], ◌∷◌,
  ◌++◌, map, String, str_eq, is_given, ◌<>◌, take_text, join, occurs, contains, filter, length,
  take, all, any, ltb, leb, max, if◌then◌else◌,
}
use payops_intelligence.Prelude.Sort.{sort_by}
use payops_intelligence.Rag.Types.{
  SearchQuery, QueryAnalysis, Hint, FoundDocument, Search, Kept, SearchRound, SearchResult,
}
use payops_intelligence.Rag.Tables.{known_codes, topic_hints, opposite_codes, codes_in}
use payops_intelligence.Rag.Rewrite.{Used, search_key, rewrite_query}
use payops_intelligence.Rag.Loop.Scores.{
  judged, keep_all, found_ids, missing_facets, docs_sufficient, ordered, conflicts,
  grounded_excerpt,
}

-- The local variables of the loop, after the rounds so far.
pub record SearchProgress (Q : Search) : Type 0 where
  pub used : Used
  pub current : SearchQuery
  pub kept : List (Kept Q)
  pub rejected : ℕ
  pub rounds : List SearchRound
  pub tried : List SearchQuery

-- The query of the last element, `tried[-2]` once the current query is added.
abbrev pub last_query : List SearchQuery → Option String
last_query [] = none
last_query (q ∷ []) = some q.query
last_query (q ∷ r ∷ queries) = last_query (r ∷ queries)

unfoldable pub decision_of : (sufficient is_final no_hits : Bool) → String
decision_of true is_final no_hits = "sufficient"
decision_of false true no_hits = if no_hits then "no_results" else "exhausted"
decision_of false false no_hits = "rewrite"

abbrev pub is_nil {ℓ} : {A : Type ℓ} → List A → Bool
is_nil [] = true
is_nil (x ∷ xs) = false

-- `current.rationale if previous_query else None`
unfoldable pub reason_of : Option String → SearchQuery → Option String
unfolding is_given
reason_of previous current = if is_given previous then some current.rationale else none

-- `rounds[-1]` with the decision changed.
abbrev pub exhaust_last : List SearchRound → List SearchRound
exhaust_last [] = []
exhaust_last (r ∷ []) = record r { decision = "exhausted" } ∷ []
exhaust_last (r ∷ s ∷ rounds) = r ∷ exhaust_last (s ∷ rounds)

abbrev pub last_sufficient : List SearchRound → Bool
last_sufficient [] = false
last_sufficient (r ∷ []) = r.sufficient
last_sufficient (r ∷ s ∷ rounds) = last_sufficient (s ∷ rounds)

module _ (Q : Search) (analysis : QueryAnalysis) (seeds : List SearchQuery)
    (min_kept maximum : ℕ) where
  abbrev pub hits_of : SearchProgress Q → List Q.Hit
  hits_of p = Q.retrieve p.current.query p.current.doc_type

  -- The hits that pass, ranked.
  abbrev pub ranked_of : SearchProgress Q → List (Q.Hit × Q.Score)
  ranked_of p = Q.rerank (judged Q analysis p.current (hits_of p))

  abbrev pub kept_after : SearchProgress Q → List (Kept Q)
  kept_after p = keep_all Q (ranked_of p) p.kept

  abbrev pub rejections : SearchProgress Q → ℕ
  rejections p = length (hits_of p) - length (judged Q analysis p.current (hits_of p))

  abbrev pub is_enough : SearchProgress Q → Bool
  is_enough p = docs_sufficient Q (kept_after p) (missing_facets Q analysis (kept_after p)) min_kept

  -- The record of a round.
  unfoldable pub round_of : ℕ → SearchProgress Q → SearchRound
  unfolding decision_of reason_of
  round_of index p = record {
    search_index = index;
    query = p.current.query;
    rewritten_from = last_query p.tried;
    rewrite_reason = reason_of (last_query p.tried) p.current;
    retrieved = length (hits_of p);
    kept = length (ranked_of p);
    rejected = rejections p;
    sufficient = is_enough p;
    decision = decision_of (is_enough p) (leb maximum index) (is_nil (hits_of p));
    evidence_ids = found_ids Q (ranked_of p);
    missing_facets = missing_facets Q analysis (kept_after p);
  }

  -- The body of the loop up to its end test.
  unfoldable pub search : ℕ → SearchProgress Q → SearchProgress Q
  unfolding round_of
  search index p = record p {
    used = search_key Q p.current ∷ p.used;
    tried = p.tried ++ p.current ∷ [];
    kept = kept_after p;
    rejected = p.rejected + rejections p;
    rounds = p.rounds ++ round_of index p ∷ [];
  }

  -- The next query, from the state before the round and the state after it.
  unfoldable pub next_query : SearchProgress Q → SearchProgress Q → Option SearchQuery
  unfolding rewrite_query
  next_query p after =
      rewrite_query Q analysis p.current (missing_facets Q analysis after.kept) after.used seeds
        (is_nil (hits_of p) || is_nil (ranked_of p))

  abbrev pub resume :
      Option SearchQuery → (SearchQuery → SearchProgress Q) → SearchProgress Q → SearchProgress Q
  resume none continue p = record p { rounds = exhaust_last p.rounds }
  resume (some q) continue p = continue q

  -- `for index in range(...)`, with the number of rounds left.
  unfoldable pub search_loop : (left index : ℕ) → SearchProgress Q → SearchProgress Q
  unfolding search next_query
  search_loop zero index p = p
  search_loop (suc left) index p =
      let after = search index p in
      let continue =
        λ (q : SearchQuery). search_loop left (index + 1) (record after { current = q }) in
      if is_enough p || leb maximum index then after else resume (next_query p after) continue after

  abbrev pub start : SearchQuery → SearchProgress Q
  start q = record { used = []; current = q; kept = []; rejected = 0; rounds = []; tried = [] }

  -- What follows the loop.
  unfoldable pub conclude_search : SearchProgress Q → SearchResult Q
  unfolding ordered conflicts grounded_excerpt
  conclude_search p =
      let items = ordered Q p.kept in
      let (conflicting, note) = conflicts Q items in
      let ids = map (λ (k : Kept Q). k.found.evidence_id) items in
      let verified = not (is_nil ids) && all (contains ids) ids in
      record {
        rounds = p.rounds;
        iterations = length p.rounds;
        max_iterations = maximum;
        sufficient = if conflicting then false else last_sufficient p.rounds && verified;
        conflicting = conflicting;
        conflict_note = note;
        queries = p.tried;
        items = items;
        citations = ids;
        grounded_excerpt = grounded_excerpt Q items conflicting note;
        rejected_count = p.rejected;
        sources_verified = verified;
      }

  unfoldable pub run_from : SearchQuery → SearchResult Q
  unfolding search_loop conclude_search
  run_from q = conclude_search (search_loop (max 1 maximum) 1 (start q))

-- The seeds, or else the question.
unfoldable pub seeds_or : (Q : Search) → String → List SearchQuery → List SearchQuery
seeds_or Q question (q ∷ seeds) = q ∷ seeds
seeds_or Q question [] =
    if str_eq (Q.strip question) ""
    then []
    else record {
      query = Q.strip question;
      doc_type = none;
      rationale = "original research question";
    }
      ∷ []

unfoldable pub run_seeds :
    (Q : Search) → QueryAnalysis → List SearchQuery → (min_kept maximum : ℕ) → SearchResult Q
unfolding run_from
run_seeds Q analysis [] min_kept maximum = record {
  rounds = [];
  iterations = 0;
  max_iterations = maximum;
  sufficient = false;
  conflicting = false;
  conflict_note = none;
  queries = [];
  items = [];
  citations = [];
  grounded_excerpt = "No document evidence met the relevance threshold.";
  rejected_count = 0;
  sources_verified = false;
}
run_seeds Q analysis (q ∷ seeds) min_kept maximum =
    run_from Q analysis (q ∷ seeds) min_kept maximum q

-- With the analysis of the question given.
unfoldable pub run_agentic_rag :
    (Q : Search)
    → (question : String) → List SearchQuery
    → QueryAnalysis
    → (min_kept max_iterations : ℕ) → SearchResult Q
unfolding seeds_or run_seeds
run_agentic_rag Q question seed_queries analysis min_kept max_iterations =
    run_seeds Q analysis (seeds_or Q question seed_queries) min_kept max_iterations
