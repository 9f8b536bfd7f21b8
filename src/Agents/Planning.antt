-- ===== src/Agents/Planning.antt =====
-- packages/payops_core/agents/analyst.py and webhook_inspector.py: the plan of operations that both
-- make from the words of a question. The regular expressions of the two files are functions of an
-- interface.
use payops_intelligence.Prelude.{
  inl, inr, Bool, true, false, Bool-cases, Option, none, some, List, [], ◌∷◌, ◌++◌, String,
  contains, any, All, All-append, if◌then◌else◌,
}

-- `_TOKEN.findall(question.lower())`, and the upper-case matches of `_MERCHANT` and of `_PAYMENT`.
pub record Questions : Type 0 where
  pub tokens : String → List String
  pub merchants : String → List String
  pub payments : String → List String

-- `found[0] if found else None`
abbrev pub first_of : List String → Option String
first_of [] = none
first_of (text ∷ texts) = some text

-- `task.merchant_id` where there is a task that has one, or else the argument, or else what the
-- question names.
abbrev pub or_found : Option String → List String → Option String
or_found none found = first_of found
or_found (some id) found = some id

module _ {O : Type 0} (same : O → O → Bool) where
  -- `add(operation)`
  abbrev pub add_new : O → List O → List O
  add_new operation planned =
      if any (same operation) planned then planned else planned ++ operation ∷ []

  abbrev pub add_hinted : List String → List (List String × O) → List O → List O
  add_hinted tokens [] planned = planned
  add_hinted tokens ((needles, operation) ∷ hints) planned =
      add_hinted tokens hints
        (if any (contains needles) tokens then add_new operation planned else planned)

  abbrev pub add_asked : Option O → List O → List O
  add_asked none planned = planned
  add_asked (some operation) planned = add_new operation planned

  -- `if not planned:` the operations to fall back on.
  abbrev pub or_defaults : List O → List O → List O
  or_defaults [] defaults = defaults
  or_defaults (operation ∷ planned) defaults = operation ∷ planned

  -- What holds of every operation of a plan.
  module _ (P : O → Type 0) where
    pub All-add_new :
        (operation : O) (planned : List O)
        → P operation
        → All P planned
        → All P (add_new operation planned)
    All-add_new operation planned h k = elim (Bool-cases (any (same operation) planned)) [
      | inl e ↦ rw e k
      | inr e ↦ rw e (All-append P planned (operation ∷ []) k (h, tt))
    ]

    pub All-add_hinted :
        (tokens : List String) (hints : List (List String × O)) (planned : List O)
        → All (λ (hint : List String × O). P hint.1) hints
        → All P planned
        → All P (add_hinted tokens hints planned)
    All-add_hinted tokens [] planned h k = k
    All-add_hinted tokens ((needles, operation) ∷ hints) planned h k =
        All-add_hinted tokens hints _ h.1 (added (any (contains needles) tokens))
      where
        added : (b : Bool) → All P (if b then add_new operation planned else planned)
        added true = All-add_new operation planned h.0 k
        added false = k

    pub All-or_defaults :
        (planned defaults : List O)
        → All P planned
        → All P defaults
        → All P (or_defaults planned defaults)
    All-or_defaults [] defaults h k = k
    All-or_defaults (operation ∷ planned) defaults h k = h
