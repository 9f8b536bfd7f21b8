-- ===== src/Auth/Resets.antt =====
-- A password reset works once, and ends every session of its user.
use payops_intelligence.Prelude.{
  ℕ, ◌≡◌, ◌≢◌, refl, ap, ◌∙◌, sym, subst, inl, inr, true, false, false≢true, not, ◌&&◌, ◌||◌,
  Bool-cases, Option, none, some, is_some, String, str_eq, str_eq_refl, eq_of_str_eq, leb, arith,
  if◌then◌else◌,
}
use payops_intelligence.Auth.Store.{
  AuthUser, AuthSession, PasswordResetToken, Tables, first, is_user, has_session_hash,
  has_reset_hash, record_audit,
}
use payops_intelligence.Auth.Rows.{first-update, first_passes, first-updated_row}
use payops_intelligence.Auth.Service.{
  Primitives, is_revoked, revoke_user_sessions, recognise, resolve_row, resolve_session,
}
use payops_intelligence.Auth.Passwords.{
  replied, set_password, reset_user, reset_row, reset_password, change_password,
}

-- The session is revoked, or belongs to another user.
abbrev SignedOut : String → AuthSession → Type 0
SignedOut id row = (str_eq row.user_id id && not (is_revoked row)) ≡ false

revoked_row :
    (now : ℕ) (id : String) (old row : AuthSession)
    → row ≡ (
        if str_eq old.user_id id && not (is_revoked old)
        then record old { revoked_at = some now }
        else old)
    → SignedOut id row
unfolding is_revoked
revoked_row now id old row e = ground arith

module _ (P : Primitives) where
  recognised :
      (now : ℕ) (row : AuthSession) (found : Option AuthUser) (t : Tables) (user : AuthUser)
      → ((u : AuthUser) → found ≡ some u → str_eq u.user_id row.user_id ≡ true)
      → (recognise P now row found t).0.0 ≡ some user
      → str_eq user.user_id row.user_id ≡ true
  unfolding recognise
  recognised now row none t user h e = absurd cc
  recognised now row (some u) t user h e = ground (arith, h u refl)

  resolved_row :
      (later : ℕ) (id : String) (row : AuthSession) (t : Tables) (user : AuthUser)
      → SignedOut id row
      → (resolve_row P later (some row) t).0.0 ≡ some user
      → str_eq user.user_id id ≡ false
  unfolding resolve_row
  resolved_row later id row t user out e = elim (Bool-cases (is_revoked row)) [
    | inl revoked ↦ ground arith
    | inr kept ↦ elim (Bool-cases (leb row.expires_at later)) [
      | inl expired ↦ ground arith
      | inr valid ↦
          let owner =
            recognised later row _ t user (first_passes (is_user row.user_id) t.users)
              (rw valid at (rw kept at e)) in
          ap (λ k. str_eq k id) (eq_of_str_eq _ _ owner) ∙ ground arith
    ]
  ]

  resolved_found :
      (later : ℕ) (id : String) (found : Option AuthSession) (t : Tables) (user : AuthUser)
      → ((row : AuthSession) → found ≡ some row → SignedOut id row)
      → (resolve_row P later found t).0.0 ≡ some user
      → str_eq user.user_id id ≡ false
  unfolding resolve_row
  resolved_found later id none t user out e = absurd cc
  resolved_found later id (some row) t user out e =
      resolved_row later id row t user (out row refl) e

  revoked_session :
      (now later : ℕ) (id : String) (token : Option String) (t : Tables) (user : AuthUser)
      → (resolve_session P later token (revoke_user_sessions now id t)).0.0 ≡ some user
      → str_eq user.user_id id ≡ false
  unfolding resolve_session revoke_user_sessions
  revoked_session now later id none t user e = absurd cc
  revoked_session now later id (some token) t user e = elim (Bool-cases (str_eq token "")) [
    | inl empty ↦ ground arith
    | inr given ↦
        let hash = P.hash_token token in
        resolved_found later id _ _ user
          (λ row found.
            let (old, changed) =
              first-updated_row (has_session_hash hash)
                (λ r. str_eq r.user_id id && not (is_revoked r))
                (λ r. record r { revoked_at = some now }) t.sessions row found in
            revoked_row now id old row changed)
          (rw given at e)
  ]

  pub other_user :
      (now later : ℕ) (id : String) (token : Option String) (t : Tables) (user : AuthUser)
      → (resolve_session P later token (revoke_user_sessions now id t)).0.0 ≡ some user
      → user.user_id ≢ id
  other_user now later id token t user e same = false≢true (
      sym (revoked_session now later id token t user e)
      ∙ ap (λ k. str_eq user.user_id k) (sym same)
      ∙ str_eq_refl user.user_id)

  change_password_revokes :
      (now : ℕ) (salt : String) (user : AuthUser) (current new_password : String) (t t' : Tables)
      → change_password P now salt user current new_password t ≡ (replied true, t')
      → revoke_user_sessions now user.user_id (set_password P salt new_password user.user_id t) ≡ t'
  unfolding change_password
  change_password_revokes now salt user current new_password t t' e =
      elim (Bool-cases (P.verify_password current user.password_hash)) [
        | inl known ↦ elim (Bool-cases (str_eq new_password "")) [
          | inl empty ↦ absurd (ground arith)
          | inr given ↦ ap (λ r. r.1) (rw given at (rw known at e))
        ]
        | inr unknown ↦ absurd (ground arith)
      ]

  -- After a change of password no token, at any time, signs in the user whose password it was.
  pub change_password-signs_out :
      (now : ℕ) (salt : String) (user : AuthUser) (current new_password : String) (t t' : Tables)
      → change_password P now salt user current new_password t ≡ (replied true, t')
      → (later : ℕ) (token : Option String) (signed_in : AuthUser)
      → (resolve_session P later token t').0.0 ≡ some signed_in
      → signed_in.user_id ≢ user.user_id
  change_password-signs_out now salt user current new_password t t' e later token signed_in h =
      let done = change_password_revokes now salt user current new_password t t' e in
      other_user now later user.user_id token (set_password P salt new_password user.user_id t)
        signed_in (subst (λ s. (resolve_session P later token s).0.0 ≡ some signed_in) (sym done) h)

  reset_user_once :
      (now later : ℕ) (salt password hash : String) (row : PasswordResetToken)
      → (user : Option AuthUser) (t t' : Tables) → first (has_reset_hash hash) t.resets ≡ some row
      → reset_user P now later salt password row user t ≡ (replied true, t')
      → first (has_reset_hash hash) t'.resets ≡ some (record row { used_at = some now })
  unfolding reset_user revoke_user_sessions record_audit set_password
  reset_user_once now later salt password hash row none t t' found e = ground arith
  reset_user_once now later salt password hash row (some user) t t' found e =
      elim (Bool-cases (str_eq user.status "active")) [
        | inl active ↦ elim (Bool-cases (str_eq password "")) [
          | inl empty ↦ absurd (ground arith)
          | inr given ↦
              ap (λ r. first (has_reset_hash hash) (Tables.resets (r.1)))
                (sym (rw given at (rw active at e)))
              ∙ first-update (has_reset_hash hash) (λ r. str_eq r.token_id row.token_id)
                  (λ r. record r { used_at = some now }) t.resets (λ r. refl) row found
              ∙ rw (str_eq_refl row.token_id) refl
        ]
        | inr suspended ↦ absurd (ground arith)
      ]

  reset_row_once :
      (now later : ℕ) (salt password hash : String) (found : Option PasswordResetToken)
      → (t t' : Tables) → first (has_reset_hash hash) t.resets ≡ found
      → reset_row P now later salt password found t ≡ (replied true, t')
      → (row : PasswordResetToken) × (first (has_reset_hash hash) t'.resets
          ≡ some (record row { used_at = some now }))
  unfolding reset_row
  reset_row_once now later salt password hash none t t' h e = ground arith
  reset_row_once now later salt password hash (some row) t t' h e =
      elim (Bool-cases (is_some row.used_at || leb row.expires_at now)) [
        | inl spent ↦ absurd (ground arith)
        | inr unspent ↦ (
          row,
          reset_user_once now later salt password hash row (first (is_user row.user_id) t.users) t
              t' h (rw unspent at e),
        )
      ]

  -- A token that has reset a password resets none again, at any later time.
  pub reset_password-once :
      (now later : ℕ) (salt token password : String) (t t' : Tables)
      → reset_password P now later salt token password t ≡ (replied true, t')
      → (now' later' : ℕ) (salt' password' : String)
      → reset_password P now' later' salt' token password' t' ≡ (replied false, t')
  unfolding reset_password reset_row
  reset_password-once now later salt token password t t' e now' later' salt' password' =
      let (row, used) = reset_row_once now later salt password _ _ t t' refl e in rw used refl

  reset_user_revokes :
      (now later : ℕ) (salt password : String) (row : PasswordResetToken)
      → (user : Option AuthUser) (t t' : Tables)
      → ((u : AuthUser) → user ≡ some u → u.user_id ≡ row.user_id)
      → reset_user P now later salt password row user t ≡ (replied true, t')
      → (s : Tables) × (revoke_user_sessions later row.user_id s ≡ t')
  unfolding reset_user revoke_user_sessions record_audit set_password
  reset_user_revokes now later salt password row none t t' owner e = ground arith
  reset_user_revokes now later salt password row (some user) t t' owner e =
      elim (Bool-cases (str_eq user.status "active")) [
        | inl active ↦ elim (Bool-cases (str_eq password "")) [
          | inl empty ↦ absurd (ground arith)
          | inr given ↦
              let done = ap (λ r. r.1) (rw given at (rw active at e)) in
              subst (λ id. (s : Tables) × (revoke_user_sessions later id s ≡ t')) (owner user refl)
                (_, done)
        ]
        | inr suspended ↦ absurd (ground arith)
      ]

  reset_row_revokes :
      (now later : ℕ) (salt password : String) (row : PasswordResetToken) (t t' : Tables)
      → reset_row P now later salt password (some row) t ≡ (replied true, t')
      → (s : Tables) × (revoke_user_sessions later row.user_id s ≡ t')
  unfolding reset_row
  reset_row_revokes now later salt password row t t' e =
      elim (Bool-cases (is_some row.used_at || leb row.expires_at now)) [
        | inl spent ↦ absurd (ground arith)
        | inr unspent ↦
            reset_user_revokes now later salt password row (first (is_user row.user_id) t.users) t
              t' (λ u found. eq_of_str_eq _ _ (first_passes (is_user row.user_id) t.users u found))
              (rw unspent at e)
      ]

  -- After a reset no session token, at any time, signs in the user whom the reset token was for.
  pub reset_password-signs_out :
      (now later : ℕ) (salt token password : String) (t t' : Tables) (row : PasswordResetToken)
      → first (has_reset_hash (P.hash_token token)) t.resets ≡ some row
      → reset_password P now later salt token password t ≡ (replied true, t')
      → (at' : ℕ) (cookie : Option String) (signed_in : AuthUser)
      → (resolve_session P at' cookie t').0.0 ≡ some signed_in
      → signed_in.user_id ≢ row.user_id
  unfolding reset_password
  reset_password-signs_out now later salt token password t t' row found e at' cookie signed_in h =
      let (s, done) = reset_row_revokes now later salt password row t t' (rw found at e) in
      other_user later at' row.user_id cookie s signed_in
        (subst (λ x. (resolve_session P at' cookie x).0.0 ≡ some signed_in) (sym done) h)
