-- ===== src/Books/Breakdowns/Methods.antt =====
-- The breakdown by method has the counts of each method's payments.
use payops_intelligence.Prelude.{
  ℕ, ◌+◌, ◌≡◌, refl, sym, ap, ◌∙◌, inl, inr, Bool, false, false≢true, Bool-cases, List, [], ◌∷◌,
  String, str_eq, str_eq_refl, eq_of_str_eq, arith, if◌then◌else◌, ◌&&◌, All,
}
use payops_intelligence.Books.Rows.{MethodCounts}
use payops_intelligence.Books.Breakdowns.{raised, new_bucket, raise_bucket, raise_buckets}
use payops_intelligence.Books.Breakdowns.Sizes.{weigh}

abbrev pub is_method : String → MethodCounts → Bool
is_method m bucket = str_eq bucket.method_id m

-- One of the three counts: a row adds to it if it has one of the wanted statuses.
pub record IsTally (tally : MethodCounts → ℕ) (wants : String → Bool) : Type 0 where
  pub starts : (m : String) → tally (new_bucket m) ≡ 0
  pub adds :
      (bucket : MethodCounts) (status : String) (count : ℕ)
      → tally (raised bucket status count) ≡ tally bucket + (if wants status then count else 0)

module _ (tally : MethodCounts → ℕ) (m : String) where
  -- The sum of the counts of the method's buckets.
  abbrev pub tally_of : List MethodCounts → ℕ
  tally_of [] = 0
  tally_of (bucket ∷ buckets) =
      if is_method m bucket then tally bucket + tally_of buckets else tally_of buckets

abbrev pub wanted_row : (String → Bool) → String → String × String → Bool
wanted_row wants m (method, status) = str_eq method m && wants status

module _ (tally : MethodCounts → ℕ) (wants : String → Bool) (m : String) where
  tally_of-raise_bucket :
      IsTally tally wants
      → (method status : String) (count : ℕ) (buckets : List MethodCounts)
      → tally_of tally m (raise_bucket method status count buckets)
        ≡ tally_of tally m buckets + (if wanted_row wants m (method, status) then count else 0)
  tally_of-raise_bucket rule method status count [] =
      ground (arith, rule.adds (new_bucket method) status count, rule.starts method)
  tally_of-raise_bucket rule method status count (bucket ∷ buckets) =
      let rest = tally_of-raise_bucket rule method status count buckets in
      elim (Bool-cases (str_eq bucket.method_id method)) [
        | inl e ↦
            let here = ap (λ t. str_eq t m) (eq_of_str_eq bucket.method_id method e) in
            rw e (ground (arith, here, rule.adds bucket status count))
        | inr e ↦ rw e (ground (arith, rest))
      ]

  pub tally_of-raise_buckets :
      IsTally tally wants
      → (rows : List ((String × String) × ℕ)) (buckets : List MethodCounts)
      → tally_of tally m (raise_buckets rows buckets)
        ≡ tally_of tally m buckets + weigh (wanted_row wants m) rows
  tally_of-raise_buckets rule [] buckets = omega arith
  tally_of-raise_buckets rule (((method, status), count) ∷ rows) buckets = ground (
    arith,
    tally_of-raise_buckets rule rows (raise_bucket method status count buckets),
    tally_of-raise_bucket rule method status count buckets,
  )

-- No two buckets have the same method.
abbrev pub AreApart : List MethodCounts → Type 0
AreApart [] = Unit
AreApart (bucket ∷ buckets) =
    All (λ (c : MethodCounts). str_eq bucket.method_id c.method_id ≡ false) buckets
    × AreApart buckets

differs-raise_bucket :
    (m method status : String) (count : ℕ) (buckets : List MethodCounts)
    → str_eq m method ≡ false
    → All (λ (c : MethodCounts). str_eq m c.method_id ≡ false) buckets
    → All
        (λ (c : MethodCounts). str_eq m c.method_id ≡ false)
        (raise_bucket method status count buckets)
differs-raise_bucket m method status count [] e h = (e, tt)
differs-raise_bucket m method status count (bucket ∷ buckets) e h =
    elim (Bool-cases (str_eq bucket.method_id method)) [
      | inl here ↦ rw here (h.0, h.1)
      | inr away ↦ rw away (h.0, differs-raise_bucket m method status count buckets e h.1)
    ]

AreApart-raise_bucket :
    (method status : String) (count : ℕ) (buckets : List MethodCounts)
    → AreApart buckets
    → AreApart (raise_bucket method status count buckets)
AreApart-raise_bucket method status count [] h = (tt, tt)
AreApart-raise_bucket method status count (bucket ∷ buckets) h =
    elim (Bool-cases (str_eq bucket.method_id method)) [
      | inl here ↦ rw here (h.0, h.1)
      | inr away ↦ rw away (
        differs-raise_bucket bucket.method_id method status count buckets away h.0,
        AreApart-raise_bucket method status count buckets h.1,
      )
    ]

pub AreApart-raise_buckets :
    (rows : List ((String × String) × ℕ)) (buckets : List MethodCounts)
    → AreApart buckets
    → AreApart (raise_buckets rows buckets)
AreApart-raise_buckets [] buckets h = h
AreApart-raise_buckets (((method, status), count) ∷ rows) buckets h =
    AreApart-raise_buckets rows (raise_bucket method status count buckets)
      (AreApart-raise_bucket method status count buckets h)

pub str_eq_sym : (s t : String) → str_eq s t ≡ false → str_eq t s ≡ false
str_eq_sym s t h = elim (Bool-cases (str_eq t s)) [
  | inl e ↦ absurd (false≢true (sym h ∙ ap (str_eq s) (eq_of_str_eq t s e) ∙ str_eq_refl s))
  | inr e ↦ e
]

module _ (tally : MethodCounts → ℕ) where
  tally_of-absent :
      (m : String) (buckets : List MethodCounts)
      → All (λ (c : MethodCounts). str_eq m c.method_id ≡ false) buckets
      → tally_of tally m buckets ≡ 0
  tally_of-absent m [] h = refl
  tally_of-absent m (bucket ∷ buckets) h =
      rw (str_eq_sym m bucket.method_id h.0) (tally_of-absent m buckets h.1)

  -- The bucket of a method has the method's count.
  pub AreApart-tally_of :
      (buckets : List MethodCounts)
      → AreApart buckets
      → All (λ (c : MethodCounts). tally c ≡ tally_of tally c.method_id buckets) buckets
  AreApart-tally_of [] h = tt
  AreApart-tally_of (bucket ∷ buckets) h = (
    ground (arith, str_eq_refl bucket.method_id, tally_of-absent bucket.method_id buckets h.0),
    later buckets h.0 (AreApart-tally_of buckets h.1),
  )
    where
      later :
          (cs : List MethodCounts)
          → All (λ (c : MethodCounts). str_eq bucket.method_id c.method_id ≡ false) cs
          → All (λ (c : MethodCounts). tally c ≡ tally_of tally c.method_id buckets) cs
          → All (λ (c : MethodCounts). tally c ≡ tally_of tally c.method_id (bucket ∷ buckets)) cs
      later [] away same = tt
      later (c ∷ cs) away same = (rw away.0 same.0, later cs away.1 same.1)
