-- ===== src/Prelude/Text.antt =====
-- Texts that the program only compares and joins, and the decimal form of its integers.
use Prim.Native.Nat.{ℕ, zero, suc, ◌/◌, ◌%◌}
use Prim.Native.String.{String, ◌++◌, compare}
use mathlib.Core.Path.{◌≡◌, sym, ap, ◌∙◌}
use mathlib.Core.Logic.{◌≢◌, inl, inr}
use mathlib.Core.Bool.{Bool, true, false, not, ◌||◌}
use mathlib.Core.Option.{Option, none, some}
use mathlib.Core.List.{List, [], ◌∷◌}
use native.Mathlib.Omega.{arith}
use text.Mathlib.Text.{◌==◌, is_le, starts_with}
use text.Mathlib.TextEquality.{eq_iff}
use text.Mathlib.TextPositions.{eq_refl}
use payops_intelligence.Prelude.Tests.{ltb, Bool-cases, if◌then◌else◌}
use payops_intelligence.Prelude.Lists.{any}
use payops_intelligence.Prelude.Int.{ℤ, pos, negsuc}

abbrev pub str_eq : String → String → Bool
str_eq s t = s == t

-- `s <= t` on texts.
abbrev pub str_le : String → String → Bool
str_le s t = is_le (compare s t)

infixr 65 ◌<>◌
abbrev pub ◌<>◌ : String → String → String
s <> t = s ++ t

-- `s.startswith(t)`
abbrev pub startswith : String → String → Bool
startswith s t = starts_with s t

-- `needle in s`
abbrev pub occurs : String → String → Bool
occurs needle String.[] = str_eq needle ""
occurs needle (String.◌∷◌ c s) = startswith (String.◌∷◌ c s) needle || occurs needle s

-- `s in texts`
abbrev pub contains : List String → String → Bool
contains texts s = any (λ t. str_eq s t) texts

pub str_eq_refl : (s : String) → str_eq s s ≡ true
str_eq_refl s = eq_refl s

pub eq_of_str_eq : (s t : String) → str_eq s t ≡ true → s ≡ t
eq_of_str_eq s t h = (eq_iff s t).0 h

pub str_eq_of_ne : (s t : String) → s ≢ t → str_eq s t ≡ false
str_eq_of_ne s t h = ground (arith, eq_iff s t)

-- Of two texts that differ, one that is equal to a third keeps the other from it.
pub str_eq_other : (s t u : String) → str_eq s t ≡ false → str_eq s u ≡ true → str_eq t u ≡ false
str_eq_other s t u differ here = elim (Bool-cases (str_eq t u)) [
  | inl there ↦
      let h =
        ap (λ e. str_eq e t) (eq_of_str_eq s u here)
        ∙ ap (λ e. str_eq e t) (sym (eq_of_str_eq t u there))
        ∙ str_eq_refl t in
      absurd (ground arith)
  | inr away ↦ away
]

digit : ℕ → String
digit d =
    if ltb d 5
    then if ltb d 1
      then "0"
      else if ltb d 2
      then "1"
      else if ltb d 3
      then "2"
      else if ltb d 4
      then "3"
      else "4"
    else if ltb d 6
    then "5"
    else if ltb d 7
    then "6"
    else if ltb d 8
    then "7"
    else if ltb d 9
    then "8"
    else "9"

-- One round gives one digit, so a number has enough fuel in itself.
decimal : ℕ → ℕ → String
unfolding digit
decimal zero n = digit n
decimal (suc fuel) n =
    let rest = decimal fuel (n / 10) in if ltb n 10 then digit n else rest <> digit (n % 10)

-- `str(n)` of a natural number.
unfoldable pub show_nat : ℕ → String
unfolding decimal
show_nat n = decimal n n

-- `str(n)` of an integer.
unfoldable pub show : ℤ → String
unfolding show_nat
show (pos n) = show_nat n
show (negsuc n) = "-" <> show_nat (suc n)

-- `text[:n]`
unfoldable pub take_text : ℕ → String → String
take_text zero s = ""
take_text (suc n) String.[] = ""
take_text (suc n) (String.◌∷◌ c s) = String.◌∷◌ c (take_text n s)

-- The truth value of an optional text.
unfoldable pub is_given : Option String → Bool
is_given none = false
is_given (some text) = not (str_eq text "")

-- `separator.join(texts)`
unfoldable pub join : String → List String → String
join separator [] = ""
join separator (s ∷ []) = s
join separator (s ∷ t ∷ texts) = s <> (separator <> join separator (t ∷ texts))
