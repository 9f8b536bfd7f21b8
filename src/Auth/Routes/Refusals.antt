-- ===== src/Auth/Routes/Refusals.antt =====
-- A refused request leaves the tables as they were.
use payops_intelligence.Prelude.{
  ℕ, ◌≡◌, refl, inl, inr, Bool, true, false, false≢true, not, ◌&&◌, ◌||◌, Bool-cases, Option, none,
  some, is_some, List, [], ◌∷◌, String, str_eq, leb, if◌then◌else◌,
}
use payops_intelligence.Auth.Store.{
  AuthUser, PasswordResetToken, Tables, first, is_user, has_reset_hash,
}
use payops_intelligence.Auth.Service.{
  Primitives, Issued, get_user_by_email, stored_hash, admit, authenticate, resolve_session,
}
use payops_intelligence.Auth.Accounts.{
  Creation, created, no_password, integrity_error, create_user, Message, request_password_reset,
}
use payops_intelligence.Auth.Passwords.{
  Change, replied, value_error, reset_user, reset_row, reset_password, change_password,
}
use payops_intelligence.Auth.Policy.{Letters, password_errors, validate_signup}
use payops_intelligence.Auth.Routes.{
  Settings, Visit, AuthReply, welcomed, profile, notice, http_error, body_error, within,
  get_current_user, as_user, Handler,
}
use payops_intelligence.Auth.Routes.Handlers

-- A reply that is not an error comes with any tables, another with those before it.
abbrev pub is_error : AuthReply → Bool
is_error (welcomed user cookie) = false
is_error (profile user) = false
is_error (notice text cookie) = false
is_error _ = true

abbrev Keeps : Tables → AuthReply × Tables → Type 0
Keeps t (reply, t') = is_error reply ≡ true → t' ≡ t

unless_errors-Keeps :
    (errors : List String) (t : Tables) (go : AuthReply × Tables)
    → Keeps t go
    → Keeps t (Handlers.unless_errors errors t go)
unless_errors-Keeps [] t go h = h
unless_errors-Keeps (error ∷ errors) t go h = λ e. refl

as_user-Keeps :
    (t : Tables) (found : (Option AuthUser × String) × Tables) (handler : Handler)
    → ((user : AuthUser) (pending : Tables) → Keeps t (handler user pending))
    → Keeps t (as_user t found handler)
as_user-Keeps t ((none, reason), pending) handler h = λ e. refl
as_user-Keeps t ((some user, reason), pending) handler h = h user pending

-- A guard that refuses keeps the tables.
if_refused :
    (test : Bool) (t : Tables) (refusal go : AuthReply × Tables)
    → Keeps t refusal
    → Keeps t go
    → Keeps t (if test then refusal else go)
if_refused true t refusal go h k = h
if_refused false t refusal go h k = k

module _ (P : Primitives) (L : Letters) (S : Settings) (visit : Visit) where
  signed_up-Keeps : (made : Creation) (t : Tables) → Keeps t (Handlers.signed_up P L S visit made t)
  signed_up-Keeps (created user t') t = λ e. absurd (false≢true e)
  signed_up-Keeps no_password t = λ e. refl
  signed_up-Keeps integrity_error t = λ e. refl

  admit-Keeps :
      (found : Option AuthUser) (valid : Bool) (new : Issued) (ttl_hours : ℕ)
      (agent : Option String) (t : Tables)
      → Keeps t (Handlers.login_reply P L S visit (admit P found valid new ttl_hours agent t))
  unfolding admit
  admit-Keeps none valid new ttl_hours agent t = λ e. refl
  admit-Keeps (some user) false new ttl_hours agent t = λ e. refl
  admit-Keeps (some user) true new ttl_hours agent t =
      elim (Bool-cases (str_eq user.status "active")) [
        | inl active ↦ rw active (λ e. absurd (false≢true e))
        | inr suspended ↦ rw suspended (λ e. refl)
      ]

  reset_user-Keeps :
      (now later : ℕ) (salt password : String) (row : PasswordResetToken) (found : Option AuthUser)
      (t : Tables)
      → Keeps t
          (Handlers.reset_reply P L S visit t (reset_user P now later salt password row found t))
  unfolding reset_user
  reset_user-Keeps now later salt password row none t = λ e. refl
  reset_user-Keeps now later salt password row (some user) t =
      elim (Bool-cases (str_eq user.status "active")) [
        | inl active ↦ elim (Bool-cases (str_eq password "")) [
          | inl empty ↦ rw active (rw empty (λ e. refl))
          | inr given ↦ rw active (rw given (λ e. absurd (false≢true e)))
        ]
        | inr suspended ↦ rw suspended (λ e. refl)
      ]

  reset_row-Keeps :
      (now later : ℕ) (salt password : String) (row : Option PasswordResetToken) (t : Tables)
      → Keeps t (Handlers.reset_reply P L S visit t (reset_row P now later salt password row t))
  unfolding reset_row
  reset_row-Keeps now later salt password none t = λ e. refl
  reset_row-Keeps now later salt password (some row) t =
      elim (Bool-cases (is_some row.used_at || leb row.expires_at now)) [
        | inl spent ↦ rw spent (λ e. refl)
        | inr valid ↦
            rw valid
              (reset_user-Keeps now later salt password row (first (is_user row.user_id) t.users) t)
      ]

  sent-Keeps :
      (send : Message → Bool) (t : Tables) (message : Option Message) (t' : Tables)
      → Keeps t (Handlers.sent P L S visit send t (message, t'))
  sent-Keeps send t none t' = λ e. absurd (false≢true e)
  sent-Keeps send t (some message) t' = elim (Bool-cases (send message)) [
    | inl e ↦ rw e (λ e. absurd (false≢true e))
    | inr e ↦ rw e (λ e. refl)
  ]

  changed-Keeps :
      (t : Tables) (user : AuthUser) (done : Change × Tables)
      → Keeps t (Handlers.changed P L S visit t user done)
  changed-Keeps t user (replied true, t') = λ e. absurd (false≢true e)
  changed-Keeps t user (replied false, t') = λ e. refl
  changed-Keeps t user (value_error, t') = λ e. refl

  signup-Keeps :
      (raw : Handlers.SignupRequest) (t : Tables) → Keeps t (Handlers.signup P L S visit raw t)
  unfolding Handlers.signup
  signup-Keeps raw t =
      let body = Handlers.stripped_signup P L S visit raw in
      if_refused (not (Handlers.signup_fits P L S visit body)) t (body_error, t) _ (λ e. refl)
        (unless_errors-Keeps
          (validate_signup P L body.name body.email body.password body.confirm_password
            S.password_min_length)
          t _
          (if_refused (is_some (get_user_by_email P t body.email)) t
            (http_error 409 Handlers.taken, t) _ (λ e. refl)
            (signed_up-Keeps (create_user P (Handlers.signup_user P L S visit body) t) t)))

  login-Keeps :
      (body : Handlers.LoginRequest) (t : Tables) → Keeps t (Handlers.login P L S visit body t)
  unfolding Handlers.login authenticate
  login-Keeps body t =
      let email = L.strip body.email in
      let password = L.strip body.password in
      if_refused (not (within 3 254 email && within 1 128 password)) t (body_error, t) _ (λ e. refl)
        (admit-Keeps (get_user_by_email P t email)
          (P.verify_password password (stored_hash P (get_user_by_email P t email))) visit.issued
          S.session_ttl_hours visit.agent t)

  forgot_password-Keeps :
      (send : Message → Bool) (raw : String) (t : Tables)
      → Keeps t (Handlers.forgot_password P L S visit send raw t)
  unfolding Handlers.forgot_password
  forgot_password-Keeps send raw t =
      let email = L.strip raw in
      let (message, t') = request_password_reset P (Handlers.reset_issue P L S visit) email t in
      if_refused (not (within 3 254 email)) t (body_error, t) _ (λ e. refl)
        (sent-Keeps send t message t')

  reset_password_route-Keeps :
      (body : Handlers.ResetPasswordRequest) (t : Tables)
      → Keeps t (Handlers.reset_password_route P L S visit body t)
  unfolding Handlers.reset_password_route reset_password
  reset_password_route-Keeps body t =
      let token = L.strip body.token in
      let password = L.strip body.password in
      let confirm = L.strip body.confirm_password in
      if_refused (not (within 8 256 token && (within 1 128 password && within 1 128 confirm))) t
        (body_error, t) _ (λ e. refl)
        (if_refused (not (str_eq password confirm)) t (http_error 422 "Passwords do not match.", t)
          _ (λ e. refl)
          (unless_errors-Keeps (password_errors L password S.password_min_length) t _ (
            reset_row-Keeps visit.now visit.later visit.salt password
              (first (has_reset_hash (P.hash_token token)) t.resets) t)))

  change_for-Keeps :
      (body : Handlers.ChangePasswordRequest) (t : Tables) (user : AuthUser) (pending : Tables)
      → Keeps t (Handlers.change_for P L S visit body t user pending)
  change_for-Keeps body t user pending =
      if_refused
        (not (
          within 1 128 body.current_password
          && (within 1 128 body.password && within 1 128 body.confirm_password)))
        t (body_error, t) _ (λ e. refl)
        (if_refused (not (str_eq body.password body.confirm_password)) t
          (http_error 422 "Passwords do not match.", t) _ (λ e. refl)
          (unless_errors-Keeps (password_errors L body.password S.password_min_length) t _ (
            changed-Keeps t user (
              change_password P visit.later visit.salt user body.current_password body.password
                pending))))

  handle-Keeps :
      (send : Message → Bool) (request : Handlers.AuthRequest) (t : Tables)
      → Keeps t (Handlers.handle P L S send visit request t)
  unfolding Handlers.handle get_current_user
  handle-Keeps send (Handlers.signup_request body) t = signup-Keeps body t
  handle-Keeps send (Handlers.login_request body) t = login-Keeps body t
  handle-Keeps send Handlers.logout_request t =
      as_user-Keeps t (resolve_session P visit.now visit.cookie t) (Handlers.logout_for P L S visit)
        (λ user pending e. absurd (false≢true e))
  handle-Keeps send Handlers.me_request t =
      as_user-Keeps t (resolve_session P visit.now visit.cookie t) (Handlers.me_for P L S visit t)
        (λ user pending e. absurd (false≢true e))
  handle-Keeps send (Handlers.update_request name) t =
      as_user-Keeps t (resolve_session P visit.now visit.cookie t)
        (Handlers.update_for P L S visit (L.strip name) t)
        (λ user pending.
          if_refused (not (within 2 80 (L.strip name))) t (body_error, t) _ (λ e. refl)
            (λ e. absurd (false≢true e)))
  handle-Keeps send (Handlers.forgot_request email) t = forgot_password-Keeps send email t
  handle-Keeps send (Handlers.reset_request body) t = reset_password_route-Keeps body t
  handle-Keeps send (Handlers.change_request body) t =
      as_user-Keeps t (resolve_session P visit.now visit.cookie t)
        (Handlers.change_for P L S visit body t) (change_for-Keeps body t)

-- A request to the routes of sign-in that is refused or fails leaves the tables as they were.
pub handle_refused :
    (P : Primitives) (L : Letters) (S : Settings) (send : Message → Bool) (visit : Visit)
    (request : Handlers.AuthRequest) (t : Tables)
    → is_error (Handlers.handle P L S send visit request t).0 ≡ true
    → (Handlers.handle P L S send visit request t).1 ≡ t
handle_refused P L S send visit request t = handle-Keeps P L S visit send request t
