-- ===== src/Auth/Accounts.antt =====
-- apps/api/auth_service.py: `create_user`, `count_active_admins`, `bootstrap_admin` and
-- `request_password_reset`.
use payops_intelligence.Prelude.{
  ℕ, ◌+◌, ◌*◌, Bool, false, not, ◌&&◌, ◌||◌, Option, none, some, ◌∷◌, String, str_eq, ◌<>◌,
  show_nat, take_text, any, filter, length, if◌then◌else◌,
}
use payops_intelligence.Auth.Store.{AuthUser, PasswordResetToken, Tables, is_user, record_audit}
use payops_intelligence.Auth.Service.{Primitives, get_user_by_email, actor_or}

abbrev pub is_admin : AuthUser → Bool
is_admin user = str_eq user.role "admin"

abbrev pub is_active_admin : AuthUser → Bool
is_active_admin user = is_admin user && str_eq user.status "active"

-- `if exclude_user_id: stmt.where(AuthUser.user_id != exclude_user_id)`
abbrev pub is_excluded : Option String → AuthUser → Bool
is_excluded none user = false
is_excluded (some id) user = not (str_eq id "") && is_user id user

unfoldable pub count_active_admins : Tables → Option String → ℕ
count_active_admins t exclude =
    length (filter (λ u. is_active_admin u && not (is_excluded exclude u)) t.users)

-- What `create_user` ends with: `hash_password` raises a `ValueError`, and the flush an
-- `IntegrityError` where the primary key or the unique index on the email is taken.
pub data Creation : Type 0 where
  created : AuthUser → Tables → Creation
  no_password : Creation
  integrity_error : Creation

-- The arguments of `create_user`, with the token, the salt and the time that it takes.
pub record NewUser : Type 0 where
  pub name : String
  pub email : String
  pub password : String
  pub role : String
  pub actor_id : Option String
  pub token : String
  pub salt : String
  pub now : ℕ

abbrev pub is_taken : AuthUser → Tables → Bool
is_taken user t = any (λ u. is_user user.user_id u || str_eq u.email user.email) t.users

-- `EmailMessage`
pub record Message : Type 0 where
  pub to : String
  pub subject : String
  pub body : String

-- `url.rstrip("/")`
unfoldable pub rstrip_slash : String → String
rstrip_slash String.[] = ""
rstrip_slash (String.◌∷◌ c s) =
    let rest = rstrip_slash s in
    if str_eq rest "" && str_eq (String.◌∷◌ c "") "/" then "" else String.◌∷◌ c rest

-- The settings that a reset takes, and the results of `new_token` and `_utcnow`.
pub record ResetIssue : Type 0 where
  pub public_app_url : String
  pub reset_token_ttl_minutes : ℕ
  pub raw : String
  pub token : String
  pub now : ℕ

-- The settings that name the first administrator.
pub record Bootstrap : Type 0 where
  pub email : String
  pub password : String
  pub name : String

abbrev pub minute : ℕ
minute = 60_000_000

module _ (P : Primitives) where
  unfoldable pub user_row : NewUser → AuthUser
  user_row new = record {
    user_id = take_text 32 new.token;
    name = P.normalize_name new.name;
    email = P.normalize_email new.email;
    password_hash = P.hash_password new.salt new.password;
    role = if str_eq new.role "admin" then "admin" else "user";
    status = "active";
    created_at = new.now;
    last_login_at = none;
    last_active_at = none;
  }

  unfoldable pub create_user : NewUser → Tables → Creation
  unfolding user_row record_audit actor_or
  create_user new t =
      let user = user_row new in
      if str_eq new.password ""
      then no_password
      else if is_taken user t
      then integrity_error
      else created user (
          record_audit "SIGNUP" (some (actor_or new.actor_id user.user_id)) (some user.user_id)
            (record t { users = user ∷ t.users }))

  unfoldable pub reset_message : ResetIssue → AuthUser → Message
  unfolding rstrip_slash
  reset_message issue user = record {
    to = user.email;
    subject = "Reset your PayIntel AI password";
    body =
        "Use this link to reset your PayIntel AI password. It expires in "
        <> show_nat issue.reset_token_ttl_minutes
        <> " minutes.\n\n"
        <> rstrip_slash issue.public_app_url
        <> "/reset-password?token="
        <> issue.raw
        <> "\n";
  }

  unfoldable pub token_row : ResetIssue → AuthUser → PasswordResetToken
  token_row issue user = record {
    token_id = take_text 32 issue.token;
    user_id = user.user_id;
    token_hash = P.hash_token issue.raw;
    expires_at = issue.now + issue.reset_token_ttl_minutes * minute;
    created_at = issue.now;
    used_at = none;
  }

  -- `request_password_reset` once the user is looked up, with the message that it sends.
  unfoldable pub offer_reset : ResetIssue → Option AuthUser → Tables → Option Message × Tables
  unfolding reset_message token_row
  offer_reset issue none t = (none, t)
  offer_reset issue (some user) t =
      if str_eq user.status "active"
      then (some (reset_message issue user), record t { resets = token_row issue user ∷ t.resets })
      else (none, t)

  unfoldable pub request_password_reset : ResetIssue → String → Tables → Option Message × Tables
  unfolding offer_reset record_audit
  request_password_reset issue email t =
      offer_reset issue (get_user_by_email P t email)
        (record_audit "PASSWORD_RESET_REQUEST" none none t)

  unfoldable pub admin_request : Bootstrap → (token salt : String) → ℕ → NewUser
  admin_request b token salt now = record {
    name = if str_eq b.name "" then "PayIntel Admin" else b.name;
    email = P.normalize_email b.email;
    password = b.password;
    role = "admin";
    actor_id = none;
    token = token;
    salt = salt;
    now = now;
  }

  unfoldable pub bootstrap_found : NewUser → Option AuthUser → Tables → Creation → Tables
  bootstrap_found new (some user) t made = t
  bootstrap_found new none t (created user t') = t'
  bootstrap_found new none t made = t

  -- An exception is left to the caller, which drops the transaction.
  unfoldable pub bootstrap_admin : Bootstrap → (token salt : String) → ℕ → Tables → Tables
  unfolding admin_request bootstrap_found create_user get_user_by_email
  bootstrap_admin b token salt now t =
      let new = admin_request b token salt now in
      if str_eq new.email "" || str_eq b.password ""
      then t
      else if any is_admin t.users
      then t
      else bootstrap_found new (get_user_by_email P t new.email) t (create_user new t)
