-- ===== src/Prelude/Ids.antt =====
-- The pattern `^[A-Za-z0-9_-]{1,64}$` of apps/api/query.py and of the tools, as `re.match` reads it:
-- its `$` also matches before a line feed that ends the text.
use Prim.Native.Nat.{ℕ, ◌+◌}
use Prim.Native.Char.{code}
use Prim.Native.String.{String}
use mathlib.Core.Bool.{Bool, ◌&&◌, ◌||◌}
use mathlib.Core.List.{List, [], ◌∷◌}
use payops_intelligence.Prelude.Tests.{leb, ◌==◌, if◌then◌else◌}

-- The code points of a text.
abbrev pub codes : String → List ℕ
codes String.[] = []
codes (String.◌∷◌ c s) = code c ∷ codes s

unfoldable pub is_id_char : ℕ → Bool
is_id_char c =
    (leb b'A' c && leb c b'Z')
    || (leb b'a' c && leb c b'z')
    || (leb b'0' c && leb c b'9')
    || c == b'_'
    || c == b'-'

-- With the number of characters already read.
unfoldable pub id_match : ℕ → List ℕ → Bool
unfolding is_id_char
id_match n [] = leb 1 n && leb n 64
id_match n (c ∷ []) = if c == 10 then leb 1 n && leb n 64 else is_id_char c && leb (n + 1) 64
id_match n (c ∷ d ∷ cs) = let rest = id_match (n + 1) (d ∷ cs) in is_id_char c && rest

-- `_ID.match(value)`
unfoldable pub is_id : String → Bool
unfolding id_match
is_id s = id_match 0 (codes s)
