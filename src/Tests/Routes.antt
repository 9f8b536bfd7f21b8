-- ===== src/Tests/Routes.antt =====
-- The routes of sign-in at concrete requests.
use payops_intelligence.Prelude.{
  ◌≡◌, ◌↔◌, refl, true, false, ◌&&◌, some, none, is_some, Option, [], ◌∷◌, String, str_eq, leb,
  if◌then◌else◌, show_nat, take_text,
}
use payops_intelligence.Auth.Store.{AuthUser, Tables}
use payops_intelligence.Auth.Service.{get_user_by_email}
use payops_intelligence.Auth.Policy.{Letters, password_errors, validate_signup, is_email}
use payops_intelligence.Auth.Policy.Strength.{IsAcceptable, validate_signup-IsAcceptable}
use payops_intelligence.Auth.Routes.{
  Settings, Visit, Cookie, AuthReply, welcomed, http_error, notice, server_error,
}
use payops_intelligence.Auth.Routes.Handlers
use payops_intelligence.Auth.Routes.Refusals.{handle_refused}
use payops_intelligence.Auth.Routes.Signup.{IsWelcome, signup-IsWelcome}
use payops_intelligence.Tests.Auth.{primitives, tables}

abbrev lstrip : String → String
lstrip String.[] = ""
lstrip (String.◌∷◌ c s) =
    let rest = lstrip s in if str_eq (String.◌∷◌ c "") " " then rest else String.◌∷◌ c s

abbrev rstrip : String → String
rstrip String.[] = ""
rstrip (String.◌∷◌ c s) =
    let rest = rstrip s in
    if str_eq rest "" && str_eq (String.◌∷◌ c "") " " then "" else String.◌∷◌ c rest

abbrev letters : Letters
letters = record {
  is_upper = λ c. leb b'A' c && leb c b'Z';
  is_lower = λ c. leb b'a' c && leb c b'z';
  is_digit = λ c. leb b'0' c && leb c b'9';
  strip = λ text. rstrip (lstrip text);
}

abbrev settings : Settings
settings = record {
  cookie_name = "payintel_session";
  session_cookie_secure = true;
  session_ttl_hours = 72;
  password_min_length = 10;
  public_app_url = "http://localhost:3001";
  reset_token_ttl_minutes = 60;
}

abbrev visit : Option String → Visit
visit cookie = record {
  cookie = cookie;
  agent = none;
  now = 5;
  later = 6;
  token = "t9";
  salt = "s";
  issued = record { raw = "fresh"; session_id = "n1"; now = 7 };
}

weak_password :
    password_errors letters "secret" 10
    ≡ "At least 10 characters" ∷ "One uppercase letter" ∷ "One number" ∷ "One special character"
      ∷ []
unfolding password_errors show_nat
weak_password = refl

addresses :
    (is_email "cy@mail.in" ≡ true) × (is_email "cy@mail" ≡ false) × (is_email "@mail.in" ≡ false)
unfolding is_email
addresses = (refl, refl, refl)

abbrev cy : Handlers.SignupRequest
cy = record {
  name = " Cy Cole";
  email = "cy@mail.in";
  password = "Secret123!";
  confirm_password = "Secret123!";
}

abbrev signed_up : AuthReply × Tables
signed_up = Handlers.signup primitives letters settings (visit none) cy tables

abbrev or_user : AuthReply → AuthUser → AuthUser
or_user (welcomed user cookie) other = user
or_user _ other = other

abbrev new_user : AuthUser
new_user = or_user signed_up.0 (record {
  user_id = "";
  name = "";
  email = "";
  password_hash = "";
  role = "";
  status = "";
  created_at = 0;
  last_login_at = none;
  last_active_at = none;
})

-- Ada changes her password to one that ends in a space, and cannot sign in with it.
abbrev changed : AuthReply × Tables
changed =
    Handlers.change_password_route primitives letters settings (visit (some "a1"))
      (record {
        current_password = "old";
        password = "Secret123! ";
        confirm_password = "Secret123! ";
      })
      tables

was_changed :
    changed.0
    ≡ notice "Password updated." (some (Cookie.set_cookie "payintel_session" "fresh" true 259_200))
unfolding Handlers.change_password_route
was_changed = refl

locked_out :
    (Handlers.login primitives letters settings
      (visit none)
      (record { email = "ada@mail.in"; password = "Secret123! " })
      changed.1).0
    ≡ http_error 401 "Invalid email or password."
unfolding Handlers.login Handlers.change_password_route
locked_out = refl

-- Where messages cannot be sent, only a known email is answered with an error.
known_email :
    (Handlers.forgot_password primitives letters settings
      (visit none)
      (λ message. false)
      "ada@mail.in"
      tables).0
    ≡ server_error
unfolding Handlers.forgot_password get_user_by_email
known_email = refl

unknown_email :
    (Handlers.forgot_password primitives letters settings
      (visit none)
      (λ message. false)
      "eve@mail.in"
      tables).0
    ≡ notice Handlers.generic_reset none
unfolding Handlers.forgot_password get_user_by_email
unknown_email = refl

validate_signup-IsAcceptable_example :
    (validate_signup primitives letters "Cy Cole" "cy@mail.in" "Secret123!" "Secret123!" 10 ≡ [])
    ↔ IsAcceptable primitives letters "Cy Cole" "cy@mail.in" "Secret123!" "Secret123!" 10
validate_signup-IsAcceptable_example =
    validate_signup-IsAcceptable primitives letters "Cy Cole" "cy@mail.in" "Secret123!" "Secret123!"
      10

abbrev guess : Handlers.AuthRequest
guess = Handlers.login_request (record { email = "ada@mail.in"; password = "guess" })

handle_refused_example :
    (Handlers.handle primitives letters settings (λ message. true) (visit none) guess tables).1
    ≡ tables
unfolding Handlers.handle
handle_refused_example =
    handle_refused primitives letters settings (λ message. true) (visit none) guess tables refl

signup-IsWelcome_example :
    IsAcceptable primitives letters "Cy Cole" "cy@mail.in" "Secret123!" "Secret123!" 10
    × (is_some (get_user_by_email primitives tables "cy@mail.in") ≡ false)
    × IsWelcome primitives letters settings
        (visit none)
        "cy@mail.in"
        new_user
        (Cookie.set_cookie "payintel_session" "fresh" true 259_200)
        signed_up.1
unfolding Handlers.signup take_text
signup-IsWelcome_example =
    signup-IsWelcome primitives letters settings (visit none) cy tables signed_up.1 new_user
      (Cookie.set_cookie "payintel_session" "fresh" true 259_200) refl
