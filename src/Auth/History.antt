-- ===== src/Auth/History.antt =====
-- Sequences of calls of the service: users keep distinct identifiers, and there is always an active
-- administrator.
use payops_intelligence.Prelude.{ℕ, ◌≡◌, refl, false, Option, none, [], String, str_eq}
use payops_intelligence.Auth.Store.{AuthUser, Tables, record_audit}
use payops_intelligence.Auth.Service.{
  Primitives, Issued, get_user_by_email, authenticate, resolve_session, revoke_session,
}
use payops_intelligence.Auth.Passwords.{reset_password, change_password}
use payops_intelligence.Auth.Accounts.{
  NewUser, create_user, ResetIssue, request_password_reset, Bootstrap, bootstrap_admin,
}
use payops_intelligence.Auth.Admin.{Role, suspend_user, activate_user, change_role}
use payops_intelligence.Auth.Upkeep.{
  after_creation, IsManaged, create_user-IsManaged, admit-IsManaged, resolve_session-IsManaged,
  revoke_session-IsManaged, offer_reset-IsManaged, reset_row-IsManaged, change_password-IsManaged,
}
use payops_intelligence.Auth.Guards.{suspend_user-Leaves, activate_user-Leaves, change_role-Leaves}

-- One call of the service, with what it takes from its caller, the clock and the generator of
-- tokens. A signup also issues a session.
pub data Call : Type 0 where
  sign_up : NewUser → Call
  sign_in : Issued → ℕ → Option String → (email password : String) → Call
  visit : ℕ → Option String → Call
  sign_out : ℕ → Option String → Option String → Call
  ask_reset : ResetIssue → String → Call
  reset : (now later : ℕ) (salt token password : String) → Call
  change : ℕ → String → AuthUser → (current new_password : String) → Call
  suspend : ℕ → AuthUser → String → Call
  activate : AuthUser → String → Call
  assign : AuthUser → String → Role → Call

module _ (P : Primitives) where
  unfoldable pub perform : Call → Tables → Tables
  unfolding create_user authenticate resolve_session revoke_session request_password_reset
      reset_password change_password suspend_user activate_user change_role
  perform (sign_up new) t = after_creation (create_user P new t) t
  perform (sign_in new ttl agent email password) t =
      (authenticate P new ttl agent email password t).1
  perform (visit now token) t = (resolve_session P now token t).1
  perform (sign_out now token actor) t = revoke_session P now token actor t
  perform (ask_reset issue email) t = (request_password_reset P issue email t).1
  perform (reset now later salt token password) t =
      (reset_password P now later salt token password t).1
  perform (change now salt user current new_password) t =
      (change_password P now salt user current new_password t).1
  perform (suspend now actor id) t = (suspend_user actor now id t).1
  perform (activate actor id) t = (activate_user actor id t).1
  perform (assign actor id role) t = (change_role actor id role t).1

  pub data Reach (t : Tables) : Tables → Type 0 where
    here : Reach t t
    next : {u : Tables} (c : Call) → Reach t u → Reach t (perform c u)

module _ (P : Primitives) where
  perform-IsManaged : (c : Call) (t : Tables) → IsManaged t.users → IsManaged (perform P c t).users
  unfolding perform
  perform-IsManaged (sign_up new) t h = create_user-IsManaged P new t h
  perform-IsManaged (sign_in new ttl agent email password) t h =
      admit-IsManaged P (get_user_by_email P t email) _ new ttl agent t h
  perform-IsManaged (visit now token) t h = resolve_session-IsManaged P now token t h
  perform-IsManaged (sign_out now token actor) t h = revoke_session-IsManaged P now token actor t h
  perform-IsManaged (ask_reset issue email) t h =
      offer_reset-IsManaged P issue (get_user_by_email P t email)
        (record_audit "PASSWORD_RESET_REQUEST" none none t) h
  perform-IsManaged (reset now later salt token password) t h =
      reset_row-IsManaged P now later salt password _ t h
  perform-IsManaged (change now salt user current new_password) t h =
      change_password-IsManaged P now salt user current new_password t h
  perform-IsManaged (suspend now actor id) t h = suspend_user-Leaves actor now id t h
  perform-IsManaged (activate actor id) t h = activate_user-Leaves actor id t h
  perform-IsManaged (assign actor id role) t h = change_role-Leaves actor id role t h

  -- Whatever calls of the service follow one another, users keep distinct identifiers, and if
  -- there is an active administrator at the start there is one at every later time.
  pub Reach-IsManaged : {t u : Tables} → Reach P t u → IsManaged t.users → IsManaged u.users
  Reach-IsManaged here h = h
  Reach-IsManaged (next {u} c r) h = perform-IsManaged c u (Reach-IsManaged r h)

  bootstrap_admin-IsManaged :
      (b : Bootstrap) (token salt : String) (now : ℕ) (t : Tables)
      → t.users ≡ []
      → str_eq (P.normalize_email b.email) "" ≡ false
      → str_eq b.password "" ≡ false
      → IsManaged (bootstrap_admin P b token salt now t).users
  unfolding bootstrap_admin
  bootstrap_admin-IsManaged b token salt now t empty email password =
      rw (empty, email, password) ((refl, tt), refl)

  -- From an empty database with an email and a password configured, the start of the program makes
  -- an active administrator, and there is one whatever calls of the service follow one another.
  pub bootstrap_admin-Reach :
      (b : Bootstrap) (token salt : String) (now : ℕ) (t u : Tables)
      → t.users ≡ []
      → str_eq (P.normalize_email b.email) "" ≡ false
      → str_eq b.password "" ≡ false
      → Reach P (bootstrap_admin P b token salt now t) u
      → IsManaged u.users
  bootstrap_admin-Reach b token salt now t u empty email password r =
      Reach-IsManaged r (bootstrap_admin-IsManaged b token salt now t empty email password)
