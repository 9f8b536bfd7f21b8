-- ===== src/Agents/Verifier/Claims.antt =====
-- What a claim's verdict says of the evidence, and what the status says of the claims.
use payops_intelligence.Prelude.{
  ◌≢◌, ◌≤◌, ◌≡◌, refl, sym, ap, ◌∙◌, inl, inr, Bool, true, false, false≢true, Bool-cases, not, ◌&&◌,
  ◌||◌, List, [], ◌∷◌, ◌++◌, map, String, str_eq, str_eq_refl, filter, length, any, all, arith,
  if◌then◌else◌,
}
use payops_intelligence.Graph.Types.{
  EvidenceItem, Issue, unsupported, contradictory, missing, weak, VerifiedClaim,
}
use payops_intelligence.Agents.Verifier.Overlap.{
  text_read, Shares, Agrees, stems-Shares, codes-Shares, are_contradictory-Agrees,
}
use payops_intelligence.Agents.Verifier.{
  cited, distinctive, shared_codes, blob, Reading, Hypothesis, is_none_of, same_issue, has_issue,
  is_known, when, is_missing, is_contradicted, is_supported, is_weak, issues_of, check,
  overall_status, claims_of, is_gap, gap_for, verify,
}

-- The issues of a claim, by the tests that find them.
abbrev issues : (m c s w : Bool) → List Issue
issues m c s w =
    when m missing ++ (when c contradictory ++ (when (not s) unsupported ++ when w weak))

unsupported-issues : (m c s w : Bool) → s ≡ not (any (same_issue unsupported) (issues m c s w))
unsupported-issues m c s w = ground arith

all-filter {ℓ} : {A : Type ℓ} (p : A → Bool) (xs : List A) → all p (filter p xs) ≡ true
all-filter p [] = refl
all-filter p (x ∷ xs) = elim (Bool-cases (p x)) [
  | inl e ↦ rw e (rw e (all-filter p xs))
  | inr e ↦ rw e (all-filter p xs)
]

-- The tests that support passes.
supported_parts :
    (g c m : Bool) → (g && not c && not m) ≡ true → (g ≡ true) × (c ≡ false) × (m ≡ false)
supported_parts g true m h = absurd (ground arith)
supported_parts g false true h = absurd (ground arith)
supported_parts true false false h = (refl, refl, refl)
supported_parts false false false h = absurd (ground arith)

-- The tests that a claim passes which misses nothing.
present_parts : (a b c : Bool) → (a || not b && c) ≡ false → (a ≡ false) × (b ≡ false → c ≡ false)
present_parts true b c h = absurd (ground arith)
present_parts false true c h = (refl, λ e. absurd (false≢true (sym e)))
present_parts false false c h = (refl, λ e. h)

some_of_none_of {ℓ} : {A : Type ℓ} (xs : List A) → is_none_of xs ≡ false → xs ≢ []
some_of_none_of [] h = absurd (false≢true (sym h))
some_of_none_of (x ∷ xs) h = λ e. cc

none_of_some {ℓ} : {A : Type ℓ} (xs : List A) → xs ≢ [] → is_none_of xs ≡ false
none_of_some [] h = absurd (h refl)
none_of_some (x ∷ xs) h = refl

length-gaps {ℓ} :
    {A : Type ℓ} (f : VerifiedClaim → A) (c : VerifiedClaim) (claims : List VerifiedClaim)
    → filter is_gap claims ≡ []
    → length (map f (filter is_gap (c ∷ claims))) ≤ 1
length-gaps f c claims h = elim (Bool-cases (is_gap c)) [
  | inl e ↦ rw e (rw h (omega arith))
  | inr e ↦ rw e (rw h (omega arith))
]

module _ (R : Reading) where
  -- A claim is its hypothesis's cause, and has either support or the issue of having none. It
  -- names only evidence that there is. With support there is evidence, some of it is named if the
  -- hypothesis names any, it has a distinctive word or an error code in common with the claim, and
  -- it does not speak against a code of the claim.
  pub record IsGrounded (items : List EvidenceItem) (h : Hypothesis R) (c : VerifiedClaim)
      : Type 0 where
    pub claim : c.claim ≡ h.cause
    pub said : c.supported ≡ not (has_issue unsupported c)
    pub known : all (is_known items) c.evidence_ids ≡ true
    pub evident : c.supported ≡ true → items ≢ []
    pub named : c.supported ≡ true → h.supporting_evidence_ids ≢ [] → c.evidence_ids ≢ []
    pub shared : c.supported ≡ true → Shares R c.claim (text_read R items c.evidence_ids)
    pub agreed : c.supported ≡ true → Agrees R c.claim (text_read R items c.evidence_ids)

  -- The claims are those of the hypotheses, in order, and each is grounded.
  abbrev pub AreGrounded : List EvidenceItem → List (Hypothesis R) → List VerifiedClaim → Type 0
  AreGrounded items [] [] = Unit
  AreGrounded items [] (c ∷ claims) = ⊥
  AreGrounded items (h ∷ hypotheses) [] = ⊥
  AreGrounded items (h ∷ hypotheses) (c ∷ claims) =
      IsGrounded items h c × AreGrounded items hypotheses claims

  overlap-Shares :
      (items : List EvidenceItem) (h : Hypothesis R)
      → (not (is_none_of (distinctive R h items)) || not (is_none_of (shared_codes R h items)))
        ≡ true
      → Shares R h.cause (text_read R items (cited R h items))
  unfolding distinctive shared_codes blob
  overlap-Shares items h overlap = elim (Bool-cases (not (is_none_of (distinctive R h items)))) [
    | inl e ↦ stems-Shares R h.cause (text_read R items (cited R h items)) e
    | inr e ↦ codes-Shares R h.cause (text_read R items (cited R h items)) (rw e at overlap)
  ]

  contradicted-Agrees :
      (items : List EvidenceItem) (h : Hypothesis R)
      → is_contradicted R h items ≡ false
      → Agrees R h.cause (text_read R items (cited R h items))
  unfolding is_contradicted blob
  contradicted-Agrees items h e =
      are_contradictory-Agrees R h.cause (text_read R items (cited R h items)) e

  check-IsGrounded :
      (leading : Bool) (items : List EvidenceItem) (h : Hypothesis R)
      → IsGrounded items h (check R leading items h)
  unfolding check issues_of is_supported is_missing
  check-IsGrounded leading items h =
      let parts =
        supported_parts
          (not (is_none_of (distinctive R h items)) || not (is_none_of (shared_codes R h items)))
          (is_contradicted R h items) (is_missing R h items) in
      let present =
        present_parts (is_none_of items) (is_none_of h.supporting_evidence_ids)
          (is_none_of (cited R h items)) in
      record {
        claim = refl;
        said =
            unsupported-issues (is_missing R h items) (is_contradicted R h items)
              (is_supported R h items) (is_weak R h items);
        known = all-filter (is_known items) h.supporting_evidence_ids;
        evident = λ s. some_of_none_of items ((present ((parts s).2)).0);
        named = λ s given.
            some_of_none_of (cited R h items)
              ((present ((parts s).2)).1 (none_of_some h.supporting_evidence_ids given));
        shared = λ s. overlap-Shares items h ((parts s).0);
        agreed = λ s. contradicted-Agrees items h ((parts s).1);
      }

  map-check :
      (items : List EvidenceItem) (hypotheses : List (Hypothesis R))
      → AreGrounded items hypotheses (map (check R false items) hypotheses)
        × (filter is_gap (map (check R false items) hypotheses) ≡ [])
  unfolding check
  map-check items [] = (tt, refl)
  map-check items (h ∷ hypotheses) =
      let (grounded, none_left) = map-check items hypotheses in
      ((check-IsGrounded false items h, grounded), none_left)

  -- The verified claims are those of the hypotheses, in order. Each has either support or the issue
  -- of having none, and names only evidence that there is. Where it has support there is evidence,
  -- of which it names some if its hypothesis names any, and the text of the evidence that it names,
  -- or else of all, has a stem that is not generic or an error code in common with it, and does not
  -- name the opposite of one of its codes without naming that code. At most one claim asks for more.
  pub verify-IsGrounded :
      (hypotheses : List (Hypothesis R)) (items : List EvidenceItem)
      → let r = verify R hypotheses items in
        AreGrounded items hypotheses r.claims × (length r.gaps ≤ 1)
  unfolding verify claims_of
  verify-IsGrounded [] items = (tt, omega arith)
  verify-IsGrounded (h ∷ hypotheses) items =
      let (grounded, none_left) = map-check items hypotheses in
      (
        (check-IsGrounded true items h, grounded),
        length-gaps (gap_for R) (check R true items h) (map (check R false items) hypotheses)
            none_left,
      )

any-filter {ℓ} : {A : Type ℓ} (p : A → Bool) (xs : List A) → any p xs ≡ false → filter p xs ≡ []
any-filter p [] h = refl
any-filter p (x ∷ xs) h = elim (Bool-cases (p x)) [
  | inl e ↦ absurd (false≢true (sym (rw e at h)))
  | inr e ↦ rw e (any-filter p xs (rw e at h))
]

not_supported : (s : String) → str_eq s "supported" ≡ false → s ≡ "supported" → ⊥
not_supported s differs e =
    false≢true (sym differs ∙ ap (λ t. str_eq t "supported") e ∙ str_eq_refl "supported")

-- The tests that the status "supported" has passed.
status_parts :
    (a b c d e : Bool)
    → Path String
        (if a
          then "contradictory"
          else if b
          then "missing"
          else if c
          then "unsupported"
          else if d
          then "weak"
          else if e
          then "supported"
          else "unsupported")
        "supported"
    → (c ≡ false) × (e ≡ true)
status_parts true b c d e h = absurd (not_supported _ refl h)
status_parts false true c d e h = absurd (not_supported _ refl h)
status_parts false false true d e h = absurd (not_supported _ refl h)
status_parts false false false true e h = absurd (not_supported _ refl h)
status_parts false false false false true h = (refl, refl)
status_parts false false false false false h = absurd (not_supported _ refl h)

and_right : (a b : Bool) → (a && b) ≡ true → b ≡ true
and_right true b h = h
and_right false b h = absurd (false≢true h)

module _ (R : Reading) where
  -- Where the status is "supported", every claim is supported and no more evidence is asked for.
  pub verify_status :
      (hypotheses : List (Hypothesis R)) (items : List EvidenceItem)
      → let r = verify R hypotheses items in
        r.status ≡ "supported"
        → (r.needs_more_evidence ≡ false)
          × (all (λ (c : VerifiedClaim). c.supported) r.claims ≡ true)
  unfolding verify overall_status
  verify_status hypotheses items h =
      let claims = claims_of R hypotheses items in
      let (no_gap, all_supported) = status_parts _ _ (any is_gap claims) _ _ h in
      (
        ap (λ gaps. not (is_none_of (map (gap_for R) gaps))) (any-filter is_gap claims no_gap),
        and_right (not (is_none_of claims)) _ all_supported,
      )
