-- ===== src/Agents/Verifier/Overlap.antt =====
-- What a claim and a text have in common, and which of their error codes speak against each other.
use payops_intelligence.Prelude.{
  str_eq_refl, ◌≡◌, ◌⊎◌, refl, sym, ◌∙◌, subst, inl, inr, Bool, true, false, false≢true, Bool-cases,
  not, ◌&&◌, ◌||◌, List, [], ◌∷◌, map, join, occurs, String, str_eq, eq_of_str_eq, contains, filter,
  any, if◌then◌else◌,
}
use payops_intelligence.Graph.Types.{EvidenceItem}
use payops_intelligence.Agents.Verifier.{
  Reading, generic, error_codes, opposites, is_none_of, are_contradictory, text_known, codes_of,
}

or_true : (a b : Bool) → b ≡ true → (a || b) ≡ true
or_true true b h = refl
or_true false b h = h

any_intro :
    (p : String → Bool) (x : String) (xs : List String)
    → contains xs x ≡ true
    → p x ≡ true
    → any p xs ≡ true
any_intro p x [] held h = absurd (false≢true held)
any_intro p x (y ∷ xs) held h = elim (Bool-cases (str_eq x y)) [
  | inl e ↦ rw (subst (λ z. p z ≡ true) (eq_of_str_eq x y e) h) refl
  | inr e ↦ or_true (p y) _ (any_intro p x xs (rw e at held) h)
]

contains-filter :
    (p : String → Bool) (x : String) (xs : List String)
    → contains (filter p xs) x ≡ true
    → (contains xs x ≡ true) × (p x ≡ true)
contains-filter p x [] held = absurd (false≢true held)
contains-filter p x (y ∷ xs) held = elim (Bool-cases (p y)) [
  | inl py ↦ elim (Bool-cases (str_eq x y)) [
    | inl e ↦ (rw e refl, subst (λ z. p z ≡ true) (sym (eq_of_str_eq x y e)) py)
    | inr e ↦ let rest = contains-filter p x xs (rw e at (rw py at held)) in (rw e (rest.0), rest.1)
  ]
  | inr np ↦
      let rest = contains-filter p x xs (rw np at held) in (or_true (str_eq x y) _ (rest.0), rest.1)
]

filter_intro :
    (p : String → Bool) (x : String) (xs : List String)
    → contains xs x ≡ true
    → p x ≡ true
    → contains (filter p xs) x ≡ true
filter_intro p x [] held h = absurd (false≢true held)
filter_intro p x (y ∷ xs) held h = elim (Bool-cases (p y)) [
  | inl py ↦ elim (Bool-cases (str_eq x y)) [
    | inl e ↦ rw py (rw e refl)
    | inr e ↦ rw py (rw e (filter_intro p x xs (rw e at held) h))
  ]
  | inr np ↦ elim (Bool-cases (str_eq x y)) [
    | inl e ↦ absurd (false≢true (sym np ∙ subst (λ z. p z ≡ true) (eq_of_str_eq x y e) h))
    | inr e ↦ rw np (filter_intro p x xs (rw e at held) h)
  ]
]

-- A filtered list that is not empty has a member, which passes the test.
some_of_filter :
    (p : String → Bool) (xs : List String)
    → not (is_none_of (filter p xs)) ≡ true
    → (x : String) × (contains xs x ≡ true) × (p x ≡ true)
some_of_filter p [] h = absurd (false≢true h)
some_of_filter p (y ∷ xs) h = elim (Bool-cases (p y)) [
  | inl py ↦ (y, rw (str_eq_refl y) refl, py)
  | inr np ↦
      let (x, held, px) = some_of_filter p xs (rw np at h) in (x, or_true (str_eq x y) _ held, px)
]

module _ (R : Reading) where
  -- The text that a claim is held against: that of the items it cites, or else of all.
  abbrev pub text_read : List EvidenceItem → List String → String
  text_read items ids = join " " (
      if is_none_of ids
      then map (λ (i : EvidenceItem). i.text_snippet) items
      else map (λ id. text_known id "" items) ids)

  -- The text names the error code.
  abbrev pub Names : String → String → Type 0
  Names code text = (contains error_codes code ≡ true) × (occurs code (R.compact text) ≡ true)

  -- A stem that is not a generic word, or an error code, stands in both.
  abbrev pub Shares : String → String → Type 0
  Shares claim text =
      ((stem : String) × (contains (R.stems claim) stem ≡ true)
        × (contains (R.stems text) stem ≡ true)
        × (contains generic stem ≡ false))
      ⊎ ((code : String) × Names code claim × Names code text)

  -- Where the text names the opposite of a code that the claim names, it names this code too.
  abbrev pub Agrees : String → String → Type 0
  Agrees claim text =
      (code other : String)
      → Names code claim
      → Names other text
      → contains (opposites code) other ≡ true
      → Names code text

  codes_of-Names : (text code : String) → contains (codes_of R text) code ≡ true → Names code text
  unfolding codes_of
  codes_of-Names text code h = contains-filter (λ c. occurs c (R.compact text)) code error_codes h

  Names-codes_of : (text code : String) → Names code text → contains (codes_of R text) code ≡ true
  unfolding codes_of
  Names-codes_of text code (known, named) =
      filter_intro (λ c. occurs c (R.compact text)) code error_codes known named

  shared_stem : (a b : Bool) → (a && not b) ≡ true → (a ≡ true) × (b ≡ false)
  shared_stem true true h = absurd (false≢true h)
  shared_stem true false h = (refl, refl)
  shared_stem false b h = absurd (false≢true h)

  -- The stems of the claim that stand in the text too and are not generic.
  abbrev special_stems : String → String → List String
  special_stems claim text =
      filter (λ stem. contains (R.stems text) stem && not (contains generic stem)) (R.stems claim)

  pub stems-Shares :
      (claim text : String) → not (is_none_of (special_stems claim text)) ≡ true → Shares claim text
  stems-Shares claim text h =
      let (stem, held, both) =
        some_of_filter (λ stem. contains (R.stems text) stem && not (contains generic stem))
          (R.stems claim) h in
      let (there, special) = shared_stem _ _ both in inl (stem, held, there, special)

  pub codes-Shares :
      (claim text : String)
      → not (is_none_of (filter (contains (codes_of R text)) (codes_of R claim))) ≡ true
      → Shares claim text
  codes-Shares claim text h =
      let (code, held, there) = some_of_filter (contains (codes_of R text)) (codes_of R claim) h in
      inr (code, codes_of-Names claim code held, codes_of-Names text code there)

  both_true : (a b : Bool) → (a && not b) ≡ false → a ≡ true → b ≡ true
  both_true true true h e = refl
  both_true true false h e = absurd (false≢true (sym h))
  both_true false b h e = absurd (false≢true e)

  pub are_contradictory-Agrees :
      (claim text : String)
      → are_contradictory (codes_of R claim) (codes_of R text) ≡ false
      → Agrees claim text
  unfolding are_contradictory
  are_contradictory-Agrees claim text h code other in_claim in_text opposite =
      let against = λ (c : String).
        any (contains (opposites c)) (codes_of R text) && not (contains (codes_of R text) c) in
      elim (Bool-cases (against code)) [
        | inl e ↦ absurd (
            false≢true (
              sym h
              ∙ any_intro against code (codes_of R claim) (Names-codes_of claim code in_claim) e))
        | inr e ↦ codes_of-Names text code (
            both_true _ _ e (
              any_intro (contains (opposites code)) other (codes_of R text)
                (Names-codes_of text other in_text) opposite))
      ]
