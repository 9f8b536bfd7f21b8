-- ===== src/Auth/Routes.antt =====
-- apps/api/routers/auth.py with cookies.py and the guards of deps.py. A handler returns its reply
-- and the tables that are committed; work that is not committed is dropped with its session. The
-- identifiers and tokens of a visit are fresh.
pub mod Handlers
pub mod Refusals
pub mod Signup
use payops_intelligence.Prelude.{
  ℕ, ◌*◌, Bool, true, not, ◌&&◌, Option, none, some, is_some, List, [], ◌∷◌, String, str_eq, leb,
  if◌then◌else◌,
}
use payops_intelligence.Auth.Store.{AuthUser, Tables, record_audit}
use payops_intelligence.Auth.Service.{Primitives, Issued, resolve_session}
use payops_intelligence.Auth.Accounts.{Message}
use payops_intelligence.Auth.Policy.{Letters, text_length}

-- The settings that the routes read; `session_cookie_secure` depends on the environment.
pub record Settings : Type 0 where
  pub cookie_name : String
  pub session_cookie_secure : Bool
  pub session_ttl_hours : ℕ
  pub password_min_length : ℕ
  pub public_app_url : String
  pub reset_token_ttl_minutes : ℕ

-- A request's cookie and agent, and the times, tokens and salts that are taken for it.
pub record Visit : Type 0 where
  pub cookie : Option String
  pub agent : Option String
  pub now : ℕ
  pub later : ℕ
  pub token : String
  pub salt : String
  pub issued : Issued

pub data Cookie : Type 0 where
  set_cookie : (name value : String) → (secure : Bool) → (max_age : ℕ) → Cookie
  delete_cookie : (name : String) → Cookie

-- `_public_user` shows a user without the hash of the password. A body that does not fit its schema,
-- and an exception that no handler catches, have replies of their own.
pub data AuthReply : Type 0 where
  welcomed : AuthUser → Cookie → AuthReply
  profile : AuthUser → AuthReply
  notice : String → Option Cookie → AuthReply
  http_error : ℕ → String → AuthReply
  body_error server_error : AuthReply

unfoldable pub set_session_cookie : Settings → String → Cookie
set_session_cookie S token =
    set_cookie S.cookie_name token S.session_cookie_secure (S.session_ttl_hours * 3600)

unfoldable pub clear_session_cookie : Settings → Cookie
clear_session_cookie S = delete_cookie S.cookie_name

-- `Field(min_length=low, max_length=high)`
abbrev pub within : ℕ → ℕ → String → Bool
within low high text = leb low (text_length text) && leb (text_length text) high

abbrev pub expired_or_missing : String → String
expired_or_missing reason =
    if str_eq reason "expired" then "Your session expired. Sign in again." else "Sign in required."

-- What a handler does for the signed-in user, with the uncommitted tables of `resolve_session`.
abbrev pub Handler : Type 0
Handler = AuthUser → Tables → AuthReply × Tables

abbrev pub as_user : Tables → (Option AuthUser × String) × Tables → Handler → AuthReply × Tables
as_user t ((none, reason), pending) handler = (http_error 401 (expired_or_missing reason), t)
as_user t ((some user, reason), pending) handler = handler user pending

-- `Depends(get_current_user)`
unfoldable pub get_current_user : Primitives → Visit → Tables → Handler → AuthReply × Tables
unfolding resolve_session
get_current_user P visit t handler = as_user t (resolve_session P visit.now visit.cookie t) handler

-- The administrator, the tables with the audit row that a session of its own commits, and the
-- uncommitted tables of the request.
pub data Access : Type 0 where
  granted : AuthUser → (committed pending : Tables) → Access
  denied : ℕ → String → Access

abbrev pub audited : AuthUser → Tables → Tables
audited user t = record_audit "ADMIN_ACCESS" (some user.user_id) (some user.user_id) t

abbrev pub as_admin : Tables → (Option AuthUser × String) × Tables → Access
as_admin t ((none, reason), pending) = denied 401 (expired_or_missing reason)
as_admin t ((some user, reason), pending) =
    if not (str_eq user.role "admin")
    then denied 403 "Access denied."
    else granted user (audited user t) (audited user pending)

-- `Depends(require_admin)`
unfoldable pub require_admin : Primitives → Visit → Tables → Access
unfolding resolve_session record_audit
require_admin P visit t = as_admin t (resolve_session P visit.now visit.cookie t)
