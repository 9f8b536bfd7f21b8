-- ===== src/Rag/Loop/Rounds.antt =====
-- How often the loop searches, and for what.
use payops_intelligence.Prelude.{
  ℕ, zero, suc, ◌+◌, ◌≤◌, max, ◌≡◌, refl, sym, ap, false, ◌∙◌, inl, inr, Bool, true, false≢true,
  not, any, All, str_eq_refl, Bool-cases, ◌||◌, Option, none, some, List, [], ◌∷◌, ◌++◌, String,
  length, length-append, leb, subst, arith, if_both,
}
use payops_intelligence.Auth.Rows.{some_injective}
use payops_intelligence.Rag.Types.{SearchQuery, QueryAnalysis, Search, SearchRound}
use payops_intelligence.Rag.Rewrite.{
  Used, same_type, same_search, search_key, unused, first_unused, candidates, with_rationale,
  seed_or, rewrite_query,
}
use payops_intelligence.Rag.Loop.{
  SearchProgress, exhaust_last, is_enough, search, next_query, resume, search_loop, start,
  conclude_search, run_from, seeds_or, run_seeds, run_agentic_rag,
}

length-exhaust_last : (rounds : List SearchRound) → length (exhaust_last rounds) ≡ length rounds
length-exhaust_last [] = refl
length-exhaust_last (r ∷ []) = refl
length-exhaust_last (r ∷ s ∷ rounds) = ap suc (length-exhaust_last (s ∷ rounds))

or_right : (a b : Bool) → b ≡ true → (a || b) ≡ true
or_right true b h = refl
or_right false b h = h

or_left : (a b : Bool) → a ≡ true → (a || b) ≡ true
or_left true b h = refl
or_left false b h = absurd (false≢true h)

module _ (Q : Search) where
  abbrev used_after : Used → List SearchQuery → Used
  used_after used [] = used
  used_after used (q ∷ queries) = used_after (search_key Q q ∷ used) queries

  -- Each query is none of those used, nor one before it, up to case.
  abbrev pub AreNew : Used → List SearchQuery → Type 0
  AreNew used [] = Unit
  AreNew used (q ∷ queries) = (unused Q used q ≡ true) × AreNew (search_key Q q ∷ used) queries

  -- The same search: the same text up to case, for the same type of document.
  abbrev pub IsSameSearch : SearchQuery → SearchQuery → Type 0
  IsSameSearch q r = (Q.lower q.query ≡ Q.lower r.query) × (q.doc_type ≡ r.doc_type)

  -- No query is the same search as a later one.
  abbrev pub AreDistinct : List SearchQuery → Type 0
  AreDistinct [] = Unit
  AreDistinct (q ∷ queries) = All (λ r. ¬ (IsSameSearch q r)) queries × AreDistinct queries

  same_search-IsSame : (q r : SearchQuery) → IsSameSearch q r → search_key Q q ≡ search_key Q r
  same_search-IsSame q r (text, type) = rw (text, type) refl

  AreNew-apart :
      (q : SearchQuery) (used : Used) (queries : List SearchQuery)
      → any (same_search (search_key Q q)) used ≡ true
      → AreNew used queries
      → All (λ r. ¬ (IsSameSearch q r)) queries
  unfolding unused
  AreNew-apart q used [] held new = tt
  AreNew-apart q used (r ∷ queries) held (fresh, new) = (
    (λ same.
        let again =
          subst (λ key. any (same_search key) used ≡ true) (same_search-IsSame q r same) held in
        false≢true (sym (ap not again) ∙ fresh)),
    AreNew-apart q (search_key Q r ∷ used) queries
        (or_right (same_search (search_key Q q) (search_key Q r)) _ held) new,
  )

  same_type_refl : (type : Option String) → same_type type type ≡ true
  same_type_refl none = refl
  same_type_refl (some t) = str_eq_refl t

  same_search_refl : (q : SearchQuery) → same_search (search_key Q q) (search_key Q q) ≡ true
  same_search_refl q = rw (str_eq_refl (Q.lower q.query)) (same_type_refl q.doc_type)

  AreNew-AreDistinct :
      (used : Used) (queries : List SearchQuery) → AreNew used queries → AreDistinct queries
  AreNew-AreDistinct used [] new = tt
  AreNew-AreDistinct used (q ∷ queries) (fresh, new) = (
    AreNew-apart q (search_key Q q ∷ used) queries
        (or_left _ (any (same_search (search_key Q q)) used) (same_search_refl q)) new,
    AreNew-AreDistinct (search_key Q q ∷ used) queries new,
  )

  used_after-append :
      (used : Used) (queries : List SearchQuery) (q : SearchQuery)
      → used_after used (queries ++ q ∷ []) ≡ search_key Q q ∷ used_after used queries
  used_after-append used [] q = refl
  used_after-append used (r ∷ queries) q = used_after-append (search_key Q r ∷ used) queries q

  AreNew-append :
      (used : Used) (queries : List SearchQuery) (q : SearchQuery)
      → AreNew used queries
      → unused Q (used_after used queries) q ≡ true
      → AreNew used (queries ++ q ∷ [])
  AreNew-append used [] q h fresh = (fresh, tt)
  AreNew-append used (r ∷ queries) q h fresh =
      (h.0, AreNew-append (search_key Q r ∷ used) queries q h.1 fresh)

  first_unused-unused :
      (used : Used) (queries : List SearchQuery) (q : SearchQuery)
      → first_unused Q used queries ≡ some q
      → unused Q used q ≡ true
  first_unused-unused used [] q h = absurd cc
  first_unused-unused used (r ∷ queries) q h = elim (Bool-cases (unused Q used r)) [
    | inl e ↦ ap (unused Q used) (sym (some_injective r q (rw e at h))) ∙ e
    | inr e ↦ first_unused-unused used queries q (rw e at h)
  ]

  seed_or-unused :
      (used : Used) (seed other : Option SearchQuery) (q : SearchQuery)
      → ((s : SearchQuery) → seed ≡ some s → unused Q used s ≡ true)
      → ((s : SearchQuery) → other ≡ some s → unused Q used s ≡ true)
      → seed_or Q seed other ≡ some q
      → unused Q used q ≡ true
  unfolding unused
  seed_or-unused used none other q h k e = k q e
  seed_or-unused used (some s) other q h k e =
      ap (unused Q used) (sym (some_injective (with_rationale Q s) q e)) ∙ h s refl

  -- The next query has not been used.
  rewrite_query-unused :
      (analysis : QueryAnalysis) (current : SearchQuery) (missing : List String) (used : Used)
      (seeds : List SearchQuery) (no_results : Bool) (q : SearchQuery)
      → rewrite_query Q analysis current missing used seeds no_results ≡ some q
      → unused Q used q ≡ true
  unfolding rewrite_query
  rewrite_query-unused analysis current missing used seeds no_results q =
      seed_or-unused used _ _ q (first_unused-unused used seeds)
        (first_unused-unused used (candidates Q analysis current missing no_results))

module _ (Q : Search) (analysis : QueryAnalysis) (seeds : List SearchQuery)
    (min_kept maximum : ℕ) where
  abbrev IsFresh : SearchProgress Q → Type 0
  IsFresh p =
      AreNew Q [] p.tried × (p.used ≡ used_after Q [] p.tried) × (length p.rounds ≡ length p.tried)

  abbrev searched : ℕ → SearchProgress Q → SearchProgress Q
  searched index p = search Q analysis seeds min_kept maximum index p

  search-IsFresh :
      (index : ℕ) (p : SearchProgress Q)
      → IsFresh p
      → unused Q p.used p.current ≡ true
      → IsFresh (searched index p)
  unfolding search
  search-IsFresh index p (new, used, same) fresh = (
    AreNew-append Q [] p.tried p.current new (subst (λ u. unused Q u p.current ≡ true) used fresh),
    ap (λ u. search_key Q p.current ∷ u) used ∙ sym (used_after-append Q [] p.tried p.current),
    length-append p.rounds _ ∙ ap (λ n. n + 1) same ∙ sym (length-append p.tried _),
  )

  -- What holds of every end: the queries are new, one for each round, and no more than were left.
  abbrev Ends : ℕ → ℕ → SearchProgress Q → Type 0
  Ends left done p =
      AreNew Q [] p.tried × (length p.rounds ≡ length p.tried) × (length p.rounds ≤ done + left)

  resume-Ends :
      (left done : ℕ) (next : Option SearchQuery) (continue : SearchQuery → SearchProgress Q)
      (p : SearchProgress Q)
      → ((q : SearchQuery) → next ≡ some q → Ends left done (continue q))
      → Ends left done p
      → Ends left done (resume Q analysis seeds min_kept maximum next continue p)
  resume-Ends left done none continue p h k = (
    k.0,
    length-exhaust_last p.rounds ∙ k.1,
    subst (λ n. n ≤ done + left) (sym (length-exhaust_last p.rounds)) k.2,
  )
  resume-Ends left done (some q) continue p h k = h q refl

  length-search :
      (index : ℕ) (p : SearchProgress Q) → length (searched index p).rounds ≡ length p.rounds + 1
  unfolding search
  length-search index p = length-append p.rounds _

  next_query-unused :
      (p after : SearchProgress Q) (q : SearchQuery)
      → next_query Q analysis seeds min_kept maximum p after ≡ some q
      → unused Q after.used q ≡ true
  unfolding next_query
  next_query-unused p after q = rewrite_query-unused Q analysis p.current _ after.used seeds _ q

  fresh_start : (q : SearchQuery) → unused Q [] q ≡ true
  unfolding unused
  fresh_start q = refl

  search_loop-Ends :
      (left index : ℕ) (p : SearchProgress Q)
      → IsFresh p
      → unused Q p.used p.current ≡ true
      → Ends left (length p.rounds) (search_loop Q analysis seeds min_kept maximum left index p)
  unfolding search_loop
  search_loop-Ends zero index p (new, used, same) fresh = (new, same, omega arith)
  search_loop-Ends (suc left) index p h fresh =
      let after = searched index p in
      let k = search-IsFresh index p h fresh in
      let grown = length-search index p in
      let ends : Ends (suc left) (length p.rounds) after = (k.0, k.2, omega (arith, grown)) in
      if_both (Ends (suc left) (length p.rounds))
        (is_enough Q analysis seeds min_kept maximum p || leb maximum index) ends
        (resume-Ends (suc left) (length p.rounds)
          (next_query Q analysis seeds min_kept maximum p after) _ after
          (λ q e.
            let next =
              search_loop-Ends left (index + 1) (record after { current = q }) k
                (next_query-unused p after q e) in
            (next.0, next.1, omega (arith, grown, next.2)))
          ends)

  run_from-AreNew :
      (q : SearchQuery)
      → let r = run_from Q analysis seeds min_kept maximum q in
        AreNew Q [] r.queries × (r.iterations ≡ length r.queries) × (r.iterations ≤ max 1 maximum)
  unfolding run_from conclude_search
  run_from-AreNew q =
      let ends =
        search_loop-Ends (max 1 maximum) 1 (start Q analysis seeds min_kept maximum q)
          (tt, refl, refl) (fresh_start q) in
      (ends.0, ends.1, omega (arith, ends.2))

run_seeds-AreNew :
    (Q : Search) (analysis : QueryAnalysis) (seeds : List SearchQuery) (min_kept maximum : ℕ)
    → let r = run_seeds Q analysis seeds min_kept maximum in
      AreNew Q [] r.queries × (r.iterations ≡ length r.queries) × (r.iterations ≤ max 1 maximum)
unfolding run_seeds
run_seeds-AreNew Q analysis [] min_kept maximum = (tt, refl, omega arith)
run_seeds-AreNew Q analysis (q ∷ seeds) min_kept maximum =
    run_from-AreNew Q analysis (q ∷ seeds) min_kept maximum q

-- A search makes one query in each round, in at most the rounds allowed, or one where none is, and
-- no two of its queries have the same text up to case and the same type of document.
pub run_agentic_rag-AreNew :
    (Q : Search) (question : String) (seed_queries : List SearchQuery) (analysis : QueryAnalysis)
    (min_kept max_iterations : ℕ)
    → let r = run_agentic_rag Q question seed_queries analysis min_kept max_iterations in
      AreDistinct Q r.queries
      × (r.iterations ≡ length r.queries)
      × (r.iterations ≤ max 1 max_iterations)
unfolding run_agentic_rag
run_agentic_rag-AreNew Q question seed_queries analysis min_kept max_iterations =
    let (new, one_each, within) =
      run_seeds-AreNew Q analysis (seeds_or Q question seed_queries) min_kept max_iterations in
    (AreNew-AreDistinct Q [] _ new, one_each, within)
