-- ===== src/Auth/Policy/Strength.antt =====
-- Which passwords and which sign-ups pass the policy.
use payops_intelligence.Prelude.{
  ℕ, ◌≤◌, ◌≡◌, ◌↔◌, refl, Bool, true, false, not, ◌||◌, List, [], ◌∷◌, ◌++◌, String, str_eq, eq_iff,
  ltb, any, codes, arith, All, inl, inr, Bool-cases, false≢true, sym, ap, true_of_not, eq_of_str_eq,
}
use payops_intelligence.Auth.Service.{Primitives}
use payops_intelligence.Auth.Policy.{
  Letters, is_email, text_length, is_special, evaluate_password, failed_messages, PasswordIssue,
  password_errors, error_if, validate_signup, max_length,
}

pub record IsStrong (L : Letters) (password : String) (min_length : ℕ) : Type 0 where
  pub long : min_length ≤ text_length password
  pub short : text_length password ≤ 128
  pub upper : any L.is_upper (codes password) ≡ true
  pub lower : any L.is_lower (codes password) ≡ true
  pub number : any L.is_digit (codes password) ≡ true
  pub special : any is_special (codes password) ≡ true

none_failed :
    (issues : List PasswordIssue)
    → (failed_messages issues ≡ []) ↔ All (λ (i : PasswordIssue). i.ok ≡ true) issues
none_failed [] = (λ h. tt, λ h. refl)
none_failed (i ∷ issues) =
    let (to, from) = none_failed issues in
    elim (Bool-cases i.ok) [
      | inl e ↦ rw e (λ h. (refl, to h), λ h. from h.1)
      | inr e ↦ rw e (λ h. absurd cc, λ h. absurd (false≢true h.0))
    ]

no_error : (test : Bool) (message : String) → (error_if test message ≡ []) ↔ (test ≡ false)
no_error true message = (λ h. absurd cc, λ h. absurd (false≢true (sym h)))
no_error false message = (λ h. refl, λ h. refl)

neither : (xs ys : List String) → (xs ++ ys ≡ []) ↔ ((xs ≡ []) × (ys ≡ []))
neither [] ys = (λ h. (refl, h), λ h. h.1)
neither (x ∷ xs) ys = (λ h. absurd cc, λ h. absurd cc)

evaluate_password-IsStrong :
    (L : Letters) (password : String) (min_length : ℕ)
    → text_length password ≤ 128
    → All (λ (i : PasswordIssue). i.ok ≡ true) (evaluate_password L password min_length)
      ↔ IsStrong L password min_length
unfolding evaluate_password
evaluate_password-IsStrong L password min_length short = (
  λ (long, (upper, (lower, (number, (special, done))))). record {
    long = ground (arith, long);
    short = short;
    upper = upper;
    lower = lower;
    number = number;
    special = special;
  },
  λ h. (ground (arith, h.long), (h.upper, (h.lower, (h.number, (h.special, tt))))),
)

-- A password has no errors exactly if it is strong.
pub password_errors-IsStrong :
    (L : Letters) (password : String) (min_length : ℕ)
    → (password_errors L password min_length ≡ []) ↔ IsStrong L password min_length
unfolding password_errors
password_errors-IsStrong L password min_length =
    elim (Bool-cases (ltb max_length (text_length password))) [
      | inl e ↦ rw e (λ h. absurd cc, λ h. absurd (ground (arith, h.short)))
      | inr e ↦
          let issues = evaluate_password L password min_length in
          let (to, from) = evaluate_password-IsStrong L password min_length (ground (arith, e)) in
          rw e (λ h. to ((none_failed issues).0 h), λ h. (none_failed issues).1 (from h))
    ]

-- What is asked of a sign-up.
pub record IsAcceptable (P : Primitives) (L : Letters) (name email password confirm : String)
    (min_length : ℕ) : Type 0 where
  pub named : 2 ≤ text_length (P.normalize_name name)
  pub not_long : text_length (P.normalize_name name) ≤ 80
  pub addressed : is_email (P.normalize_email email) ≡ true
  pub confirmed : password ≡ confirm
  pub strong : IsStrong L password min_length

-- A sign-up has no errors exactly if its name has 2 to 80 characters, its email is an address, its
-- two passwords are equal, and the password has a length within its bounds, an uppercase and a
-- lowercase letter, a digit and a special character.
pub validate_signup-IsAcceptable :
    (P : Primitives) (L : Letters) (name email password confirm : String) (min_length : ℕ)
    → (validate_signup P L name email password confirm min_length ≡ [])
      ↔ IsAcceptable P L name email password confirm min_length
unfolding validate_signup
validate_signup-IsAcceptable P L name email password confirm min_length =
    let size = text_length (P.normalize_name name) in
    let misnamed = ltb size 2 || ltb 80 size in
    let misaddressed = not (is_email (P.normalize_email email)) in
    let unconfirmed = not (str_eq password confirm) in
    let first = error_if misnamed "Enter your full name." in
    let second = error_if misaddressed "Enter a valid email address." in
    let third = error_if unconfirmed "Passwords do not match." in
    let last = password_errors L password min_length in
    (
      λ h.
          let (name_ok, rest) = (neither first (second ++ (third ++ last))).0 h in
          let (email_ok, rest') = (neither second (third ++ last)).0 rest in
          let (same, strong) = (neither third last).0 rest' in
          let sized = (no_error misnamed "Enter your full name.").0 name_ok in
          record {
            named = ground (arith, sized);
            not_long = ground (arith, sized);
            addressed =
                true_of_not (is_email (P.normalize_email email))
                  ((no_error misaddressed "Enter a valid email address.").0 email_ok);
            confirmed = eq_of_str_eq password confirm (
                true_of_not (str_eq password confirm)
                  ((no_error unconfirmed "Passwords do not match.").0 same));
            strong = (password_errors-IsStrong L password min_length).0 strong;
          },
      λ h. (neither first (second ++ (third ++ last))).1 (
        (no_error misnamed "Enter your full name.").1 (ground (arith, h.named, h.not_long)),
        (neither second (third ++ last)).1 (
          (no_error misaddressed "Enter a valid email address.").1 (ap not h.addressed),
          (neither third last).1 (
            (no_error unconfirmed "Passwords do not match.").1
                (ap not ((eq_iff password confirm).1 h.confirmed)),
            (password_errors-IsStrong L password min_length).1 h.strong,
          ),
        ),
      ),
    )
