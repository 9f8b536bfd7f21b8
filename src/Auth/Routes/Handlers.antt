-- ===== src/Auth/Routes/Handlers.antt =====
-- apps/api/routers/auth.py: the handlers, with the bodies of packages/payops_core/models/auth.py.
-- The schemas strip the texts of a body, except for that of a change of password.
use payops_intelligence.Prelude.{
  Bool, true, false, not, ◌&&◌, Option, none, some, is_some, List, [], ◌∷◌, String, str_eq,
  if◌then◌else◌,
}
use payops_intelligence.Auth.Store.{AuthUser, Tables, update, is_user}
use payops_intelligence.Auth.Service.{
  Primitives, get_user_by_email, issue_session, logged_in, authenticate, revoke_session,
}
use payops_intelligence.Auth.Accounts.{
  NewUser, Creation, created, no_password, integrity_error, create_user, Message, ResetIssue,
  request_password_reset,
}
use payops_intelligence.Auth.Passwords.{
  Change, replied, value_error, reset_password, change_password,
}
use payops_intelligence.Auth.Policy.{Letters, password_errors, validate_signup}
use payops_intelligence.Auth.Routes.{
  Settings, Visit, AuthReply, welcomed, profile, notice, http_error, body_error, server_error,
  set_session_cookie, clear_session_cookie, within, get_current_user, Handler,
}

pub record SignupRequest : Type 0 where
  pub name : String
  pub email : String
  pub password : String
  pub confirm_password : String

pub record LoginRequest : Type 0 where
  pub email : String
  pub password : String

pub record ResetPasswordRequest : Type 0 where
  pub token : String
  pub password : String
  pub confirm_password : String

pub record ChangePasswordRequest : Type 0 where
  pub current_password : String
  pub password : String
  pub confirm_password : String

abbrev pub generic_reset : String
generic_reset = "If an account exists for this email, you'll receive reset instructions."

abbrev pub taken : String
taken = "An account with this email already exists."

-- `HTTPException(422, errors[0])` where there are errors.
abbrev pub unless_errors : List String → Tables → AuthReply × Tables → AuthReply × Tables
unless_errors [] t go = go
unless_errors (error ∷ errors) t go = (http_error 422 error, t)

module _ (P : Primitives) (L : Letters) (S : Settings) (visit : Visit) where
  abbrev pub signup_user : SignupRequest → NewUser
  signup_user body = record {
    name = body.name;
    email = body.email;
    password = body.password;
    role = "user";
    actor_id = none;
    token = visit.token;
    salt = visit.salt;
    now = visit.now;
  }

  abbrev pub signed_up : Creation → Tables → AuthReply × Tables
  signed_up (created user t') t = (
    welcomed (logged_in visit.issued.now user) (set_session_cookie S visit.issued.raw),
    issue_session P visit.issued S.session_ttl_hours visit.agent user t',
  )
  signed_up no_password t = (server_error, t)
  signed_up integrity_error t = (http_error 409 taken, t)

  abbrev pub stripped_signup : SignupRequest → SignupRequest
  stripped_signup body = record {
    name = L.strip body.name;
    email = L.strip body.email;
    password = L.strip body.password;
    confirm_password = L.strip body.confirm_password;
  }

  abbrev pub signup_fits : SignupRequest → Bool
  signup_fits body =
      within 1 80 body.name
      && (within 3 254 body.email
          && (within 1 128 body.password && within 1 128 body.confirm_password))

  unfoldable pub signup : SignupRequest → Tables → AuthReply × Tables
  unfolding validate_signup get_user_by_email create_user issue_session set_session_cookie
  signup raw t =
      let body = stripped_signup raw in
      if not (signup_fits body)
      then (body_error, t)
      else unless_errors
          (validate_signup P L body.name body.email body.password body.confirm_password
            S.password_min_length)
          t
          (if is_some (get_user_by_email P t body.email)
            then (http_error 409 taken, t)
            else signed_up (create_user P (signup_user body) t) t)

  -- The reply to a sign-in, whose work is committed also where it fails.
  abbrev pub login_reply : (Option AuthUser × String) × Tables → AuthReply × Tables
  login_reply ((none, reason), t') =
      if str_eq reason "suspended"
      then (http_error 403 "This account is suspended.", t')
      else (http_error 401 "Invalid email or password.", t')
  login_reply ((some user, token), t') = (welcomed user (set_session_cookie S token), t')

  unfoldable pub login : LoginRequest → Tables → AuthReply × Tables
  unfolding authenticate set_session_cookie
  login body t =
      let email = L.strip body.email in
      let password = L.strip body.password in
      if not (within 3 254 email && within 1 128 password)
      then (body_error, t)
      else login_reply
          (authenticate P visit.issued S.session_ttl_hours visit.agent email password t)

  abbrev pub logout_for : Handler
  logout_for user pending = (
    notice "Signed out." (some (clear_session_cookie S)),
    revoke_session P visit.later visit.cookie (some user.user_id) pending,
  )

  unfoldable pub logout : Tables → AuthReply × Tables
  unfolding get_current_user revoke_session clear_session_cookie
  logout t = get_current_user P visit t logout_for

  -- Without a commit.
  abbrev pub me_for : Tables → Handler
  me_for t user pending = (profile user, t)

  unfoldable pub me : Tables → AuthReply × Tables
  unfolding get_current_user
  me t = get_current_user P visit t (me_for t)

  abbrev pub update_for : String → Tables → Handler
  update_for name t user pending = if not (within 2 80 name) then (body_error, t) else (
    profile (record user { name = L.strip name }),
    record pending {
      users = update (is_user user.user_id) (λ u. record u { name = L.strip name }) pending.users;
    },
  )

  unfoldable pub update_me : String → Tables → AuthReply × Tables
  unfolding get_current_user
  update_me raw t = get_current_user P visit t (update_for (L.strip raw) t)

  abbrev pub reset_issue : ResetIssue
  reset_issue = record {
    public_app_url = S.public_app_url;
    reset_token_ttl_minutes = S.reset_token_ttl_minutes;
    raw = visit.issued.raw;
    token = visit.token;
    now = visit.now;
  }

  -- `sender.send` delivers the message, or raises.
  abbrev pub sent : (Message → Bool) → Tables → Option Message × Tables → AuthReply × Tables
  sent send t (none, t') = (notice generic_reset none, t')
  sent send t (some message, t') =
      if send message then (notice generic_reset none, t') else (server_error, t)

  unfoldable pub forgot_password : (Message → Bool) → String → Tables → AuthReply × Tables
  unfolding request_password_reset
  forgot_password send raw t =
      let email = L.strip raw in
      if not (within 3 254 email)
      then (body_error, t)
      else sent send t (request_password_reset P reset_issue email t)

  abbrev pub reset_reply : Tables → Change × Tables → AuthReply × Tables
  reset_reply t (replied true, t') =
      (notice "Password updated. You can sign in with your new password." none, t')
  reset_reply t (replied false, t') =
      (http_error 400 "This reset link is invalid or has expired.", t')
  reset_reply t (value_error, t') = (server_error, t)

  unfoldable pub reset_password_route : ResetPasswordRequest → Tables → AuthReply × Tables
  unfolding password_errors reset_password
  reset_password_route body t =
      let token = L.strip body.token in
      let password = L.strip body.password in
      let confirm = L.strip body.confirm_password in
      if not (within 8 256 token && (within 1 128 password && within 1 128 confirm))
      then (body_error, t)
      else if not (str_eq password confirm)
      then (http_error 422 "Passwords do not match.", t)
      else unless_errors (password_errors L password S.password_min_length) t
          (reset_reply t (reset_password P visit.now visit.later visit.salt token password t))

  -- The new session is for the user with the new hash.
  abbrev pub changed : Tables → AuthUser → Change × Tables → AuthReply × Tables
  changed t user (replied true, t') = (
    notice "Password updated." (some (set_session_cookie S visit.issued.raw)),
    issue_session P visit.issued S.session_ttl_hours visit.agent user t',
  )
  changed t user (replied false, t') = (http_error 401 "Current password is incorrect.", t)
  changed t user (value_error, t') = (server_error, t)

  abbrev pub change_for : ChangePasswordRequest → Tables → Handler
  change_for body t user pending =
      if not (
        within 1 128 body.current_password
        && (within 1 128 body.password && within 1 128 body.confirm_password))
      then (body_error, t)
      else if not (str_eq body.password body.confirm_password)
      then (http_error 422 "Passwords do not match.", t)
      else unless_errors (password_errors L body.password S.password_min_length) t (
          changed t user (
            change_password P visit.later visit.salt user body.current_password body.password
              pending))

  unfoldable pub change_password_route : ChangePasswordRequest → Tables → AuthReply × Tables
  unfolding get_current_user password_errors change_password issue_session set_session_cookie
  change_password_route body t = get_current_user P visit t (change_for body t)

-- A request to one of the routes.
pub data AuthRequest : Type 0 where
  signup_request : SignupRequest → AuthRequest
  login_request : LoginRequest → AuthRequest
  logout_request me_request : AuthRequest
  update_request : (name : String) → AuthRequest
  forgot_request : (email : String) → AuthRequest
  reset_request : ResetPasswordRequest → AuthRequest
  change_request : ChangePasswordRequest → AuthRequest

-- `router`
unfoldable pub handle :
    Primitives
    → Letters
    → Settings
    → (Message → Bool)
    → Visit
    → AuthRequest
    → Tables
    → AuthReply × Tables
unfolding signup login logout me update_me forgot_password reset_password_route
    change_password_route
handle P L S send visit (signup_request body) t = signup P L S visit body t
handle P L S send visit (login_request body) t = login P L S visit body t
handle P L S send visit logout_request t = logout P L S visit t
handle P L S send visit me_request t = me P L S visit t
handle P L S send visit (update_request name) t = update_me P L S visit name t
handle P L S send visit (forgot_request email) t = forgot_password P L S visit send email t
handle P L S send visit (reset_request body) t = reset_password_route P L S visit body t
handle P L S send visit (change_request body) t = change_password_route P L S visit body t
