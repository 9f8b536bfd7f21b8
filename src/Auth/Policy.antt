-- ===== src/Auth/Policy.antt =====
-- packages/payops_core/auth/policy.py: what a password, a name and an email address must be. The
-- methods of Python's texts are functions of an interface.
pub mod Strength
use payops_intelligence.Prelude.{
  ℕ, ◌+◌, ◌≤◌, Bool, true, false, not, ◌&&◌, ◌||◌, List, [], ◌∷◌, ◌++◌, String, str_eq, ◌<>◌,
  show_nat, ltb, leb, ◌==◌, any, length, codes, if◌then◌else◌,
}
use payops_intelligence.Auth.Service.{Primitives}

-- `str.isupper`, `str.islower` and `str.isdigit` of one character, and `str.strip`.
pub record Letters : Type 0 where
  pub is_upper : ℕ → Bool
  pub is_lower : ℕ → Bool
  pub is_digit : ℕ → Bool
  pub strip : String → String

abbrev pub is_letter : ℕ → Bool
is_letter c = (leb b'A' c && leb c b'Z') || (leb b'a' c && leb c b'z')

abbrev pub is_alphanumeric : ℕ → Bool
is_alphanumeric c = is_letter c || (leb b'0' c && leb c b'9')

abbrev pub is_local : ℕ → Bool
is_local c = is_alphanumeric c || c == b'.' || c == b'_' || c == b'%' || c == b'+' || c == b'-'

abbrev pub is_domain : ℕ → Bool
is_domain c = is_alphanumeric c || c == b'.' || c == b'-'

-- `[A-Za-z]{2,}$` after some letters; `$` also matches before a line feed that ends the text.
abbrev pub top_match : ℕ → List ℕ → Bool
top_match n [] = leb 2 n
top_match n (c ∷ []) = if c == 10 then leb 2 n else is_letter c && leb 2 (n + 1)
top_match n (c ∷ d ∷ cs) = let rest = top_match (n + 1) (d ∷ cs) in is_letter c && rest

-- `[A-Za-z0-9.\-]+\.[A-Za-z]{2,}$`, at any of the points.
abbrev pub domain_match : ℕ → List ℕ → Bool
domain_match n [] = false
domain_match n (c ∷ cs) =
    let rest = domain_match (n + 1) cs in
    is_domain c && ((leb 1 n && c == b'.' && top_match 0 cs) || rest)

-- The part before the `@`, which no other part has.
abbrev pub local_match : ℕ → List ℕ → Bool
local_match n [] = false
local_match n (c ∷ cs) =
    let rest = local_match (n + 1) cs in
    if c == b'@' then leb 1 n && domain_match 0 cs else is_local c && rest

-- `EMAIL_RE.match(value)`
unfoldable pub is_email : String → Bool
is_email value = local_match 0 (codes value)

pub record PasswordIssue : Type 0 where
  pub code : String
  pub message : String
  pub ok : Bool

abbrev pub text_length : String → ℕ
text_length text = length (codes text)

-- `SPECIAL_RE`
abbrev pub is_special : ℕ → Bool
is_special c = not (is_alphanumeric c)

unfoldable pub evaluate_password : Letters → String → ℕ → List PasswordIssue
evaluate_password L value min_length =
    record {
      code = "length";
      message = "At least " <> show_nat min_length <> " characters";
      ok = leb min_length (text_length value);
    }
    ∷ record { code = "upper"; message = "One uppercase letter"; ok = any L.is_upper (codes value) }
    ∷ record { code = "lower"; message = "One lowercase letter"; ok = any L.is_lower (codes value) }
    ∷ record { code = "number"; message = "One number"; ok = any L.is_digit (codes value) }
    ∷ record {
      code = "special";
      message = "One special character";
      ok = any is_special (codes value);
    }
    ∷ []

abbrev pub failed_messages : List PasswordIssue → List String
failed_messages [] = []
failed_messages (issue ∷ issues) =
    if issue.ok then failed_messages issues else issue.message ∷ failed_messages issues

abbrev pub max_length : ℕ
max_length = 128

unfoldable pub password_errors : Letters → String → ℕ → List String
unfolding evaluate_password
password_errors L password min_length =
    if ltb max_length (text_length password)
    then "Password is too long." ∷ []
    else failed_messages (evaluate_password L password min_length)

abbrev pub error_if : Bool → String → List String
error_if test message = if test then message ∷ [] else []

unfoldable pub validate_signup :
    Primitives → Letters → (name email password confirm : String) → (min_length : ℕ) → List String
unfolding is_email password_errors
validate_signup P L name email password confirm min_length =
    let size = text_length (P.normalize_name name) in
    error_if (ltb size 2 || ltb 80 size) "Enter your full name."
    ++ (error_if (not (is_email (P.normalize_email email))) "Enter a valid email address."
        ++ (error_if (not (str_eq password confirm)) "Passwords do not match."
            ++ password_errors L password min_length))
