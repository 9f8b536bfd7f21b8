-- ===== src/Tests/Accounts.antt =====
-- Administration on concrete tables.
use payops_intelligence.Prelude.{◌≡◌, ◌≢◌, refl, some, none, true, false, [], is_id, take_text}
use payops_intelligence.Auth.Store.{AuthUser, Tables}
use payops_intelligence.Auth.Service.{resolve_session}
use payops_intelligence.Auth.Accounts.{NewUser, Bootstrap, bootstrap_admin, rstrip_slash}
use payops_intelligence.Auth.Admin.{
  refused, user_role, admin_role, set_status, suspend_user, change_role,
}
use payops_intelligence.Auth.Suspension.{suspend_user-signs_out}
use payops_intelligence.Auth.Upkeep.{IsManaged}
use payops_intelligence.Auth.History.{
  sign_up, assign, suspend, perform, here, next, bootstrap_admin-Reach,
}
use payops_intelligence.Tests.Auth.{primitives, account, tables, ada}

abbrev boss : Bootstrap
boss = record { email = "boss@mail.in"; password = "secret"; name = "" }

abbrev no_tables : Tables
no_tables = record { users = []; sessions = []; resets = []; audits = [] }

abbrev started : Tables
started = bootstrap_admin primitives boss "root" "s" 5 no_tables

abbrev root : AuthUser
root = record {
  user_id = "root";
  name = "PayIntel Admin";
  email = "boss@mail.in";
  password_hash = "ssecret";
  role = "admin";
  status = "active";
  created_at = 5;
  last_login_at = none;
  last_active_at = none;
}

-- The only administrator is not suspended, nor made a user.
last_suspension :
    (suspend_user root 6 "root" started).0 ≡ refused 400 "Cannot suspend the last active admin."
unfolding suspend_user bootstrap_admin is_id take_text
last_suspension = refl

last_demotion :
    (change_role root "root" user_role started).0
    ≡ refused 400 "Cannot remove the last active admin."
unfolding change_role bootstrap_admin is_id take_text
last_demotion = refl

-- An identifier may end in a line feed.
line_feed : is_id "M101\n" ≡ true
unfolding is_id
line_feed = refl

bad_ids : is_id "" ≡ false
unfolding is_id
bad_ids = refl

stripped : rstrip_slash "http://x/y//" ≡ "http://x/y"
unfolding rstrip_slash
stripped = refl

abbrev eve : NewUser
eve = record {
  name = "Eve";
  email = "eve@mail.in";
  password = "pw";
  role = "user";
  actor_id = none;
  token = "eve";
  salt = "s";
  now = 7;
}

abbrev later : Tables
later =
    perform primitives (suspend 9 root "root")
      (perform primitives (assign root "eve" admin_role) (perform primitives (sign_up eve) started))

bootstrap_admin-Reach_example : IsManaged later.users
bootstrap_admin-Reach_example =
    bootstrap_admin-Reach primitives boss "root" "s" 5 no_tables later refl refl refl
      (next (suspend 9 root "root") (next (assign root "eve" admin_role) (next (sign_up eve) here)))

abbrev suspended : Tables
suspended = (suspend_user ada 20 "ada" tables).1

suspend_user-signs_out_example : AuthUser.user_id (account "bob" "sbob") ≢ "ada"
unfolding suspend_user resolve_session is_id
suspend_user-signs_out_example =
    suspend_user-signs_out ada 20 primitives "ada" tables suspended (set_status "suspended" ada)
      refl 30 (some "b1") (record (account "bob" "sbob") { last_active_at = some 30 }) refl
