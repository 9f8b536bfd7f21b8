-- ===== src/Auth/Sessions.antt =====
-- A sign-in gives a token that is recognised until it expires.
use payops_intelligence.Prelude.{
  ℕ, ◌+◌, ◌*◌, ◌<◌, ◌≡◌, refl, ap, ◌∙◌, subst, inl, inr, Bool, true, false, Bool-cases, Option,
  none, some, String, str_eq, str_eq_refl, leb, arith, if◌then◌else◌,
}
use payops_intelligence.Auth.Store.{AuthUser, AuthSession, Tables, first, is_user, record_audit}
use payops_intelligence.Auth.Rows.{first-update}
use payops_intelligence.Auth.Service.{
  Primitives, Issued, hour, logged_in, session_row, is_revoked, is_idle, issue_session,
  get_user_by_email, admit, authenticate, recognise, resolve_row, resolve_session,
}

-- The token signs the user in, with what `resolve_session` returns.
pub record Recognised (reply : Option AuthUser × String) (id : String) : Type 0 where
  pub user : AuthUser
  pub returned : reply ≡ (some user, "ok")
  pub same_user : user.user_id ≡ id

abbrev or_user : AuthUser → Option AuthUser → AuthUser
or_user u none = u
or_user u (some user) = user

pub leb_later : (limit now : ℕ) → now < limit → leb limit now ≡ false
leb_later limit now early = ground arith

pub logged_in_found :
    (now : ℕ) (user : AuthUser)
    → Path
        (Option AuthUser)
        (some (if is_user user.user_id user then logged_in now user else user))
        (some (logged_in now user))
logged_in_found now user = rw (str_eq_refl user.user_id) refl

module _ (P : Primitives) where
  pub recognise-Recognised :
      (now : ℕ) (row : AuthSession) (user : AuthUser) (t : Tables)
      → str_eq user.status "active" ≡ true
      → Recognised (recognise P now row (some user) t).0 user.user_id
  unfolding recognise
  recognise-Recognised now row user t active = elim (Bool-cases (is_idle now user.last_active_at)) [
    | inl idle ↦ rw active (rw idle record { user = _; returned = refl; same_user = refl })
    | inr busy ↦ rw active (rw busy record { user = user; returned = refl; same_user = refl })
  ]

  issued-Recognised :
      (new : Issued) (ttl_hours : ℕ) (agent : Option String) (user : AuthUser) (t : Tables)
      (now : ℕ)
      → first (is_user user.user_id) t.users ≡ some user
      → str_eq user.status "active" ≡ true
      → str_eq new.raw "" ≡ false
      → now < new.now + ttl_hours * hour
      → Recognised
          (resolve_session P now (some new.raw) (
            record_audit "LOGIN"
              (some user.user_id)
              (some user.user_id)
              (issue_session P new ttl_hours agent user t))).0
          user.user_id
  unfolding resolve_session resolve_row issue_session session_row is_revoked record_audit
  issued-Recognised new ttl_hours agent user t now keyed active given early = rw given (
      rw (str_eq_refl (P.hash_token new.raw)) (
        rw (leb_later (new.now + ttl_hours * hour) now early) (
          rw
            (first-update (is_user user.user_id) (is_user user.user_id) (logged_in new.now) t.users
                (λ u. refl) user keyed
              ∙ logged_in_found new.now user)
            (recognise-Recognised now (session_row P new ttl_hours agent user)
              (logged_in new.now user) _ active))))

  -- What a sign-in that succeeds has checked and done.
  record Admitted (found : Option AuthUser) (new : Issued) (ttl_hours : ℕ) (agent : Option String)
      (t t' : Tables) (user : AuthUser) (token : String) : Type 0 where
    stored : AuthUser
    lookup : found ≡ some stored
    active : str_eq stored.status "active" ≡ true
    done :
        Path
          ((AuthUser × String) × Tables)
          (
            (logged_in new.now stored, new.raw),
            record_audit "LOGIN"
                (some stored.user_id)
                (some stored.user_id)
                (issue_session P new ttl_hours agent stored t),
          )
          ((user, token), t')

  admit-Admitted :
      (found : Option AuthUser) (valid : Bool) (new : Issued) (ttl_hours : ℕ)
      → (agent : Option String) (t t' : Tables) (user : AuthUser) (token : String)
      → admit P found valid new ttl_hours agent t ≡ ((some user, token), t')
      → Admitted found new ttl_hours agent t t' user token
  unfolding admit
  admit-Admitted none valid new ttl_hours agent t t' user token e = ground arith
  admit-Admitted (some u) false new ttl_hours agent t t' user token e = ground arith
  admit-Admitted (some u) true new ttl_hours agent t t' user token e =
      elim (Bool-cases (str_eq u.status "active")) [
        | inl active ↦ record {
          stored = u;
          lookup = refl;
          active = active;
          done = ap (λ r. ((or_user u r.0.0, r.0.1), r.1)) (rw active at e);
        }
        | inr suspended ↦ ground arith
      ]

  -- A sign-in that succeeds gives a token that signs in the same user until the session's lifetime
  -- is over, where the token is not empty and the user's identifier is a key of the users.
  pub resolve_session-authenticate :
      (new : Issued) (ttl_hours : ℕ) (agent : Option String) (email password : String)
      → (t t' : Tables) (user : AuthUser) (token : String)
      → authenticate P new ttl_hours agent email password t ≡ ((some user, token), t')
      → ((u : AuthUser)
          → get_user_by_email P t email ≡ some u
          → first (is_user u.user_id) t.users ≡ some u)
      → str_eq new.raw "" ≡ false
      → (now : ℕ) → now < new.now + ttl_hours * hour
      → Recognised (resolve_session P now (some token) t').0 user.user_id
  unfolding authenticate
  resolve_session-authenticate new ttl_hours agent email password t t' user token e keyed given now
        early =
      let a = admit-Admitted _ _ new ttl_hours agent t t' user token e in
      subst (λ r. Recognised (resolve_session P now (some r.0.1) r.1).0 (AuthUser.user_id r.0.0))
        a.done
        (issued-Recognised new ttl_hours agent a.stored t now (keyed a.stored a.lookup) a.active
          given early)
