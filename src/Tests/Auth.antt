-- ===== src/Tests/Auth.antt =====
-- Authentication on concrete tables, and its theorems at concrete calls.
use payops_intelligence.Prelude.{
  ◌≡◌, ◌≢◌, refl, subst, some, none, false, Option, List, [], ◌∷◌, String, str_eq, ◌<>◌, arith,
}
use payops_intelligence.Auth.Store.{
  AuthUser, AuthSession, PasswordResetToken, Tables, first, is_user,
}
use payops_intelligence.Auth.Service.{
  Primitives, Issued, authenticate, resolve_session, get_user_by_email,
}
use payops_intelligence.Auth.Passwords.{replied, reset_password, change_password}
use payops_intelligence.Auth.Sessions.{Recognised, resolve_session-authenticate}
use payops_intelligence.Auth.Resets.{
  change_password-signs_out, reset_password-once, reset_password-signs_out,
}

abbrev pub primitives : Primitives
primitives = record {
  hash_token = λ token. "#" <> token;
  hash_password = λ salt password. salt <> password;
  verify_password = λ password stored. str_eq stored ("s" <> password);
  dummy_hash = "none";
  normalize_email = λ email. email;
  normalize_name = λ name. name;
}

abbrev pub account : String → String → AuthUser
account id hash = record {
  user_id = id;
  name = "Name";
  email = id <> "@mail.in";
  password_hash = hash;
  role = "user";
  status = "active";
  created_at = 0;
  last_login_at = none;
  last_active_at = none;
}

abbrev pub ada : AuthUser
ada = account "ada" "sold"

abbrev grants : List PasswordResetToken
grants =
    record {
      token_id = "r1";
      user_id = "ada";
      token_hash = "#reset";
      expires_at = 100;
      created_at = 1;
      used_at = none;
    }
    ∷ []

abbrev session : String → String → AuthSession
session token id = record {
  session_id = token;
  user_id = id;
  token_hash = "#" <> token;
  expires_at = 100;
  created_at = 1;
  last_seen_at = 1;
  revoked_at = none;
  user_agent = none;
}

abbrev pub tables : Tables
tables = record {
  users = account "bob" "sbob" ∷ ada ∷ [];
  sessions = session "a1" "ada" ∷ session "b1" "bob" ∷ [];
  resets = grants;
  audits = [];
}

abbrev issue : Issued
issue = record { raw = "fresh"; session_id = "n1"; now = 10 }

abbrev signed_in : (Option AuthUser × String) × Tables
signed_in = authenticate primitives issue 1 none "ada@mail.in" "old" tables

wrong_password :
    (authenticate primitives issue 1 none "ada@mail.in" "guess" tables).0 ≡ (none, "invalid")
unfolding authenticate
wrong_password = refl

abbrev IsKeyed : Option AuthUser → Type 0
IsKeyed none = Unit
IsKeyed (some user) = first (is_user user.user_id) tables.users ≡ some user

ada_keyed :
    (user : AuthUser)
    → get_user_by_email primitives tables "ada@mail.in" ≡ some user
    → first (is_user user.user_id) tables.users ≡ some user
unfolding get_user_by_email
ada_keyed user found = subst IsKeyed found refl

resolve_session-authenticate_example :
    Recognised (resolve_session primitives 20 (some "fresh") signed_in.1).0 "ada"
unfolding authenticate
resolve_session-authenticate_example =
    resolve_session-authenticate primitives issue 1 none "ada@mail.in" "old" tables signed_in.1
      (record ada { last_login_at = some 10; last_active_at = some 10 }) "fresh" refl ada_keyed refl
      20 (omega arith)

abbrev after_reset : Tables
after_reset = (reset_password primitives 20 21 "s" "reset" "new" tables).1

reset_password-once_example :
    reset_password primitives 30 31 "s" "reset" "newer" after_reset ≡ (replied false, after_reset)
unfolding reset_password
reset_password-once_example =
    reset_password-once primitives 20 21 "s" "reset" "new" tables after_reset refl 30 31 "s" "newer"

reset_password-signs_out_example : AuthUser.user_id (account "bob" "sbob") ≢ "ada"
unfolding reset_password resolve_session
reset_password-signs_out_example =
    reset_password-signs_out primitives 20 21 "s" "reset" "new" tables after_reset
      (record {
        token_id = "r1";
        user_id = "ada";
        token_hash = "#reset";
        expires_at = 100;
        created_at = 1;
        used_at = none;
      })
      refl refl 30 (some "b1") (record (account "bob" "sbob") { last_active_at = some 30 }) refl

abbrev changed : Tables
changed = (change_password primitives 20 "s" ada "old" "new" tables).1

-- The sessions of others stay.
bob_stays : (resolve_session primitives 30 (some "b1") changed).0.1 ≡ "ok"
unfolding resolve_session change_password
bob_stays = refl

ada_is_out : (resolve_session primitives 30 (some "a1") changed).0 ≡ (none, "invalid")
unfolding resolve_session change_password
ada_is_out = refl

change_password-signs_out_example : AuthUser.user_id (account "bob" "sbob") ≢ ada.user_id
unfolding change_password resolve_session
change_password-signs_out_example =
    change_password-signs_out primitives 20 "s" ada "old" "new" tables changed refl 30 (some "b1")
      (record (account "bob" "sbob") { last_active_at = some 30 }) refl
