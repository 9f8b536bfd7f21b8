-- ===== src/Prelude/Sort.antt =====
-- Python's `sorted(items, key=...)`, a stable sort, and dictionaries of lists, in insertion order.
pub mod Laws
use mathlib.Core.Bool.{Bool, true, false, ◌&&◌}
use mathlib.Core.List.{List, [], ◌∷◌, ◌++◌}
use payops_intelligence.Prelude.Tests.{if◌then◌else◌}

module _ {ℓ} {A : Type ℓ} where
  -- In front of the first item that is not below it.
  abbrev pub insert_by : (A → A → Bool) → A → List A → List A
  insert_by le x [] = x ∷ []
  insert_by le x (y ∷ ys) = if le x y then x ∷ y ∷ ys else y ∷ insert_by le x ys

  abbrev pub sort_by : (A → A → Bool) → List A → List A
  sort_by le [] = []
  sort_by le (x ∷ xs) = insert_by le x (sort_by le xs)

module _ {ℓ κ} {A : Type ℓ} {K : Type κ} where
  -- `groups[key].append(x)` on a `defaultdict(list)`
  abbrev pub append_to : (K → K → Bool) → K → A → List (K × List A) → List (K × List A)
  append_to same key x [] = (key, x ∷ []) ∷ []
  append_to same key x ((k, xs) ∷ groups) =
      if same k key then (k, xs ++ x ∷ []) ∷ groups else (k, xs) ∷ append_to same key x groups

  -- The loop over the items, with the groups so far.
  abbrev pub group_onto : (K → K → Bool) → (A → K) → List A → List (K × List A) → List (K × List A)
  group_onto same key [] groups = groups
  group_onto same key (x ∷ xs) groups = group_onto same key xs (append_to same (key x) x groups)

  abbrev pub group_by : (K → K → Bool) → (A → K) → List A → List (K × List A)
  group_by same key xs = group_onto same key xs []

  -- `groups.get(key, [])`
  abbrev pub members : (K → K → Bool) → K → List (K × List A) → List A
  members same key [] = []
  members same key ((k, xs) ∷ groups) = if same k key then xs else members same key groups
