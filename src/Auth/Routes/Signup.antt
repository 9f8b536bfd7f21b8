-- ===== src/Auth/Routes/Signup.antt =====
-- What a sign-up that succeeds has checked and done.
use payops_intelligence.Prelude.{
  ℕ, ◌+◌, ◌*◌, ◌<◌, ◌≡◌, refl, sym, ap, ◌∙◌, subst, inl, inr, Bool, true, false, false≢true, not,
  Bool-cases, Option, some, is_some, List, [], ◌∷◌, String, str_eq, str_eq_refl, if◌then◌else◌,
}
use payops_intelligence.Auth.Store.{AuthUser, Tables, first, is_user, record_audit}
use payops_intelligence.Auth.Rows.{first-update}
use payops_intelligence.Auth.Service.{
  Primitives, Issued, hour, get_user_by_email, issue_session, session_row, is_revoked, logged_in,
  resolve_session, resolve_row,
}
use payops_intelligence.Auth.Accounts.{
  NewUser, Creation, created, no_password, integrity_error, create_user, user_row, is_taken,
}
use payops_intelligence.Auth.Sessions.{Recognised, recognise-Recognised, leb_later, logged_in_found}
use payops_intelligence.Auth.Policy.{Letters, validate_signup}
use payops_intelligence.Auth.Policy.Strength.{IsAcceptable, validate_signup-IsAcceptable}
use payops_intelligence.Auth.Routes.{
  Settings, Visit, Cookie, AuthReply, welcomed, http_error, body_error, set_session_cookie,
}
use payops_intelligence.Auth.Routes.Handlers
use payops_intelligence.Auth.Routes.Refusals.{is_error}

-- A reply that welcomes was given by the branch that is not a refusal.
passed :
    (test : Bool) (reply : AuthReply) (t : Tables) (go r : AuthReply × Tables)
    → is_error reply ≡ true
    → is_error r.0 ≡ false
    → (if test then (reply, t) else go) ≡ r
    → (test ≡ false) × (go ≡ r)
passed true reply t go r bad good h =
    absurd (false≢true (sym good ∙ sym (ap (λ (p : AuthReply × Tables). is_error p.0) h) ∙ bad))
passed false reply t go r bad good h = (refl, h)

no_errors :
    (errors : List String) (t : Tables) (go r : AuthReply × Tables)
    → is_error r.0 ≡ false
    → Handlers.unless_errors errors t go ≡ r
    → (errors ≡ []) × (go ≡ r)
no_errors [] t go r good h = (refl, h)
no_errors (error ∷ errors) t go r good h =
    absurd (false≢true (sym good ∙ sym (ap (λ (p : AuthReply × Tables). is_error p.0) h)))

module _ (P : Primitives) where
  issue_session-Recognised :
      (new : Issued) (ttl_hours : ℕ) (agent : Option String) (user : AuthUser) (t : Tables)
      → first (is_user user.user_id) t.users ≡ some user
      → str_eq user.status "active" ≡ true
      → str_eq new.raw "" ≡ false
      → (now : ℕ) → now < new.now + ttl_hours * hour
      → Recognised
          (resolve_session P now (some new.raw) (issue_session P new ttl_hours agent user t)).0
          user.user_id
  unfolding resolve_session resolve_row issue_session session_row is_revoked
  issue_session-Recognised new ttl_hours agent user t keyed active given now early = rw given (
      rw (str_eq_refl (P.hash_token new.raw)) (
        rw (leb_later (new.now + ttl_hours * hour) now early) (
          rw
            (first-update (is_user user.user_id) (is_user user.user_id) (logged_in new.now) t.users
                (λ u. refl) user keyed
              ∙ logged_in_found new.now user)
            (recognise-Recognised P now (session_row P new ttl_hours agent user)
              (logged_in new.now user) _ active))))

  -- What `create_user` has done where it returns.
  record IsCreated (new : NewUser) (user : AuthUser) (t' : Tables) : Type 0 where
    made : user ≡ user_row P new
    keyed : first (is_user user.user_id) t'.users ≡ some user

  abbrev CreatedBy : NewUser → Creation → Type 0
  CreatedBy new (created user t') = IsCreated new user t'
  CreatedBy new no_password = Unit
  CreatedBy new integrity_error = Unit

  create_user-CreatedBy : (new : NewUser) (t : Tables) → CreatedBy new (create_user P new t)
  unfolding create_user record_audit
  create_user-CreatedBy new t = elim (Bool-cases (str_eq new.password "")) [
    | inl e ↦ rw e tt
    | inr e ↦ elim (Bool-cases (is_taken (user_row P new) t)) [
      | inl f ↦ rw e (rw f tt)
      | inr f ↦
          rw e
            (rw f (record { made = refl; keyed = rw (str_eq_refl (user_row P new).user_id) refl }))
    ]
  ]

module _ (P : Primitives) (L : Letters) (S : Settings) (visit : Visit) where
  -- An ordinary user, whom the cookie signs in until the session's lifetime is over.
  pub record IsWelcome (email : String) (user : AuthUser) (cookie : Cookie) (t' : Tables)
      : Type 0 where
    pub ordinary : user.role ≡ "user"
    pub addressed : user.email ≡ P.normalize_email email
    pub cookie_set : cookie ≡ set_session_cookie S visit.issued.raw
    pub recognised :
        str_eq visit.issued.raw "" ≡ false
        → (now : ℕ) → now < visit.issued.now + S.session_ttl_hours * hour
        → Recognised (resolve_session P now (some visit.issued.raw) t').0 user.user_id

  abbrev Welcomes : String → AuthReply × Tables → Type 0
  Welcomes email (welcomed user cookie, t') = IsWelcome email user cookie t'
  Welcomes email (reply, t') = Unit

  signed_up-Welcomes :
      (body : Handlers.SignupRequest) (made : Creation) (t : Tables)
      → CreatedBy P (Handlers.signup_user P L S visit body) made
      → Welcomes body.email (Handlers.signed_up P L S visit made t)
  unfolding user_row
  signed_up-Welcomes body (created user t') t h = record {
    ordinary = ap (λ (u : AuthUser). u.role) h.made;
    addressed = ap (λ (u : AuthUser). u.email) h.made;
    cookie_set = refl;
    recognised = λ given now early.
        issue_session-Recognised P visit.issued S.session_ttl_hours visit.agent user t' h.keyed
          (ap (λ (u : AuthUser). str_eq u.status "active") h.made) given now early;
  }
  signed_up-Welcomes body no_password t h = tt
  signed_up-Welcomes body integrity_error t h = tt

-- A sign-up that succeeds had a name, an email, a password and its confirmation that the policy
-- accepts and an email that no user had; the new user is not an administrator and has that email,
-- and the cookie's token, where it is not empty, signs in this user until the lifetime of the
-- session is over.
pub signup-IsWelcome :
    (P : Primitives) (L : Letters) (S : Settings) (visit : Visit) (raw : Handlers.SignupRequest)
    (t t' : Tables) (user : AuthUser) (cookie : Cookie)
    → Handlers.signup P L S visit raw t ≡ (welcomed user cookie, t')
    → IsAcceptable P L
        (L.strip raw.name)
        (L.strip raw.email)
        (L.strip raw.password)
        (L.strip raw.confirm_password)
        S.password_min_length
      × (is_some (get_user_by_email P t (L.strip raw.email)) ≡ false)
      × IsWelcome P L S visit (L.strip raw.email) user cookie t'
unfolding Handlers.signup
signup-IsWelcome P L S visit raw t t' user cookie h =
    let body = Handlers.stripped_signup P L S visit raw in
    let made = create_user P (Handlers.signup_user P L S visit body) t in
    let (fits, valid) =
      passed (not (Handlers.signup_fits P L S visit body)) body_error t _ (welcomed user cookie, t')
        refl refl h in
    let (accepted, unknown) =
      no_errors
        (validate_signup P L body.name body.email body.password body.confirm_password
          S.password_min_length)
        t _ (welcomed user cookie, t') refl valid in
    let (absent, done) =
      passed (is_some (get_user_by_email P t body.email)) (http_error 409 Handlers.taken) t
        (Handlers.signed_up P L S visit made t) (welcomed user cookie, t') refl refl unknown in
    (
      (validate_signup-IsAcceptable P L body.name body.email body.password body.confirm_password
            S.password_min_length).0
          accepted,
      absent,
      subst (Welcomes P L S visit body.email) done (
          signed_up-Welcomes P L S visit body made t
            (create_user-CreatedBy P (Handlers.signup_user P L S visit body) t)),
    )
