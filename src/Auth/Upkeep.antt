-- ===== src/Auth/Upkeep.antt =====
-- The calls of the service leave the users managed: identifiers differ, and one user is an active
-- administrator.
use payops_intelligence.Prelude.{
  ℕ, ◌≡◌, refl, inl, inr, Bool, true, false, not, ◌||◌, Bool-cases, Option, none, some, List, [],
  ◌∷◌, String, str_eq, any, arith, is_some, leb, if_both,
}
use payops_intelligence.Auth.Store.{
  AuthUser, AuthSession, PasswordResetToken, Tables, first, update, is_user, record_audit,
  has_session_hash,
}
use payops_intelligence.Auth.Service.{
  Primitives, Issued, logged_in, admit, recognise, resolve_row, resolve_session, is_revoked,
  revoke_row, revoke_session, revoke_user_sessions,
}
use payops_intelligence.Auth.Passwords.{set_password, reset_user, reset_row, change_password}
use payops_intelligence.Auth.Accounts.{
  is_active_admin, Creation, created, no_password, integrity_error, NewUser, is_taken, user_row,
  create_user, ResetIssue, offer_reset,
}
use payops_intelligence.Auth.Users.{IsKeyed, HasAdmin, update-IsKeyed, update-HasAdmin, or_right}

-- The tables after `create_user`; an exception drops the transaction.
abbrev pub after_creation : Creation → Tables → Tables
after_creation (created user t') t = t'
after_creation no_password t = t
after_creation integrity_error t = t

-- Users with distinct identifiers, one of them an active administrator.
abbrev pub IsManaged : List AuthUser → Type 0
IsManaged users = IsKeyed users × HasAdmin users

-- What a call leaves behind, beside its reply.
abbrev pub Leaves : {R : Type 0} → R × Tables → Type 0
Leaves (reply, t) = IsManaged t.users

-- An update of users that leaves identifiers alone, and active administrators active.
abbrev pub Keeps : (AuthUser → AuthUser) → Type 0
Keeps f =
    ((u : AuthUser) → (f u).user_id ≡ u.user_id)
    × ((u : AuthUser) → is_active_admin u ≡ true → is_active_admin (f u) ≡ true)

pub updated :
    (pick : AuthUser → Bool) (f : AuthUser → AuthUser) (users : List AuthUser)
    → Keeps f
    → IsManaged users
    → IsManaged (update pick f users)
updated pick f users k h =
    (update-IsKeyed pick f users k.0 h.0, update-HasAdmin pick f users k.1 h.1)

fresh_id :
    (id email : String) (users : List AuthUser)
    → any (λ u. is_user id u || str_eq u.email email) users ≡ false
    → any (is_user id) users ≡ false
fresh_id id email [] h = refl
fresh_id id email (u ∷ users) h = ground (arith, fresh_id id email users)

module _ (P : Primitives) where
  pub create_user-IsManaged :
      (new : NewUser) (t : Tables)
      → IsManaged t.users
      → IsManaged (after_creation (create_user P new t) t).users
  unfolding create_user
  create_user-IsManaged new t h = elim (Bool-cases (str_eq new.password "")) [
    | inl empty ↦ rw empty h
    | inr given ↦ elim (Bool-cases (is_taken (user_row P new) t)) [
      | inl taken ↦ rw given (rw taken h)
      | inr unused ↦ rw given (
          rw unused (
            (fresh_id (user_row P new).user_id (user_row P new).email t.users unused, h.0),
            or_right (is_active_admin (user_row P new)) _ h.1,
          ))
    ]
  ]

  pub admit-IsManaged :
      (found : Option AuthUser) (valid : Bool) (new : Issued) (ttl : ℕ) (agent : Option String)
      → (t : Tables) → IsManaged t.users
      → IsManaged (admit P found valid new ttl agent t).1.users
  unfolding admit
  admit-IsManaged none valid new ttl agent t h = h
  admit-IsManaged (some u) valid new ttl agent t h =
      let logged =
        updated (is_user u.user_id) (logged_in new.now) t.users ((λ u. refl), (λ u a. a)) h in
      ground (arith, logged.0, logged.1)

  pub recognise-IsManaged :
      (now : ℕ) (row : AuthSession) (found : Option AuthUser) (t : Tables)
      → IsManaged t.users
      → IsManaged (recognise P now row found t).1.users
  unfolding recognise
  recognise-IsManaged now row none t h = h
  recognise-IsManaged now row (some user) t h =
      let seen =
        updated (is_user user.user_id) (λ u. record u { last_active_at = some now }) t.users
          ((λ u. refl), (λ u a. a)) h in
      ground (arith, seen.0, seen.1)

  pub resolve_row-IsManaged :
      (now : ℕ) (found : Option AuthSession) (t : Tables)
      → IsManaged t.users
      → IsManaged (resolve_row P now found t).1.users
  unfolding resolve_row
  resolve_row-IsManaged now none t h = h
  resolve_row-IsManaged now (some row) t h =
      let seen = recognise-IsManaged now row (first (is_user row.user_id) t.users) t h in
      ground (arith, seen.0, seen.1)

  pub resolve_session-IsManaged :
      (now : ℕ) (token : Option String) (t : Tables)
      → IsManaged t.users
      → IsManaged (resolve_session P now token t).1.users
  unfolding resolve_session
  resolve_session-IsManaged now none t h = h
  resolve_session-IsManaged now (some token) t h =
      if_both Leaves (str_eq token "") h (resolve_row-IsManaged now _ t h)

  pub revoke_row-IsManaged :
      (now : ℕ) (actor : Option String) (found : Option AuthSession) (t : Tables)
      → IsManaged t.users
      → IsManaged (revoke_row P now actor found t).users
  unfolding revoke_row
  revoke_row-IsManaged now actor none t h = h
  revoke_row-IsManaged now actor (some row) t h =
      if_both (λ r. IsManaged (Tables.users r)) (is_revoked row) h h

  pub revoke_session-IsManaged :
      (now : ℕ) (token actor : Option String) (t : Tables)
      → IsManaged t.users
      → IsManaged (revoke_session P now token actor t).users
  unfolding revoke_session
  revoke_session-IsManaged now none actor t h = h
  revoke_session-IsManaged now (some token) actor t h =
      if_both (λ r. IsManaged (Tables.users r)) (str_eq token "") h
        (revoke_row-IsManaged now actor (first (has_session_hash (P.hash_token token)) t.sessions) t
          h)

  pub offer_reset-IsManaged :
      (issue : ResetIssue) (found : Option AuthUser) (t : Tables)
      → IsManaged t.users
      → IsManaged (offer_reset P issue found t).1.users
  unfolding offer_reset
  offer_reset-IsManaged issue none t h = h
  offer_reset-IsManaged issue (some user) t h = if_both Leaves (str_eq user.status "active") h h

  pub set_password-IsManaged :
      (salt password id : String) (t : Tables)
      → IsManaged t.users
      → IsManaged (set_password P salt password id t).users
  unfolding set_password
  set_password-IsManaged salt password id t h =
      updated (is_user id) (λ u. record u { password_hash = P.hash_password salt password }) t.users
        ((λ u. refl), (λ u a. a)) h

  pub reset_user-IsManaged :
      (now later : ℕ) (salt password : String) (row : PasswordResetToken)
      → (found : Option AuthUser) (t : Tables) → IsManaged t.users
      → IsManaged (reset_user P now later salt password row found t).1.users
  unfolding reset_user revoke_user_sessions record_audit
  reset_user-IsManaged now later salt password row none t h = h
  reset_user-IsManaged now later salt password row (some user) t h =
      if_both Leaves (not (str_eq user.status "active")) h (
        if_both Leaves (str_eq password "") h
          (set_password-IsManaged salt password user.user_id t h))

  pub reset_row-IsManaged :
      (now later : ℕ) (salt password : String) (found : Option PasswordResetToken) (t : Tables)
      → IsManaged t.users
      → IsManaged (reset_row P now later salt password found t).1.users
  unfolding reset_row
  reset_row-IsManaged now later salt password none t h = h
  reset_row-IsManaged now later salt password (some row) t h =
      if_both Leaves (is_some row.used_at || leb row.expires_at now) h
        (reset_user-IsManaged now later salt password row (first (is_user row.user_id) t.users) t h)

  pub change_password-IsManaged :
      (now : ℕ) (salt : String) (user : AuthUser) (current new_password : String) (t : Tables)
      → IsManaged t.users
      → IsManaged (change_password P now salt user current new_password t).1.users
  unfolding change_password revoke_user_sessions
  change_password-IsManaged now salt user current new_password t h =
      if_both Leaves (not (P.verify_password current user.password_hash)) h (
        if_both Leaves (str_eq new_password "") h
          (set_password-IsManaged salt new_password user.user_id t h))
