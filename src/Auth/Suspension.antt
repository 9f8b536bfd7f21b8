-- ===== src/Auth/Suspension.antt =====
-- A suspension ends every session of its user.
use payops_intelligence.Prelude.{
  ℕ, ◌≡◌, ◌≢◌, refl, sym, ap, subst, inl, inr, Bool-cases, Option, none, some, String, eq_of_str_eq,
  arith, is_id,
}
use payops_intelligence.Auth.Store.{AuthUser, Tables, first, is_user, record_audit}
use payops_intelligence.Auth.Rows.{first_passes}
use payops_intelligence.Auth.Service.{Primitives, resolve_session, revoke_user_sessions}
use payops_intelligence.Auth.Admin.{answered, is_last_admin, suspend_found, suspend_user}
use payops_intelligence.Auth.Resets.{other_user}

module _ (actor : AuthUser) (now : ℕ) where
  suspend_found_revokes :
      (id : String) (found : Option AuthUser) (t t' : Tables) (reply : AuthUser)
      → ((u : AuthUser) → found ≡ some u → u.user_id ≡ id)
      → suspend_found actor now found t ≡ (answered reply, t')
      → (s : Tables) × (revoke_user_sessions now id s ≡ t')
  unfolding suspend_found revoke_user_sessions record_audit
  suspend_found_revokes id none t t' reply owner e = absurd (ground arith)
  suspend_found_revokes id (some user) t t' reply owner e =
      elim (Bool-cases (is_last_admin t user)) [
        | inl last ↦ absurd (ground arith)
        | inr other ↦
            subst (λ k. (s : Tables) × (revoke_user_sessions now k s ≡ t')) (owner user refl)
              (_, ap (λ r. r.1) (rw other at e))
      ]

  suspend_user_revokes :
      (id : String) (t t' : Tables) (reply : AuthUser)
      → suspend_user actor now id t ≡ (answered reply, t')
      → (s : Tables) × (revoke_user_sessions now id s ≡ t')
  unfolding suspend_user
  suspend_user_revokes id t t' reply e = elim (Bool-cases (is_id id)) [
    | inl valid ↦
        suspend_found_revokes id (first (is_user id) t.users) t t' reply
          (λ u found. eq_of_str_eq _ _ (first_passes (is_user id) t.users u found)) (rw valid at e)
    | inr bad ↦ absurd (ground arith)
  ]

  -- After an administrator has suspended a user, no token that was issued before signs the user
  -- in, at any time.
  pub suspend_user-signs_out :
      (P : Primitives) (id : String) (t t' : Tables) (reply : AuthUser)
      → suspend_user actor now id t ≡ (answered reply, t')
      → (later : ℕ) (token : Option String) (signed_in : AuthUser)
      → (resolve_session P later token t').0.0 ≡ some signed_in
      → signed_in.user_id ≢ id
  suspend_user-signs_out P id t t' reply e later token signed_in h =
      let (s, done) = suspend_user_revokes id t t' reply e in
      other_user P now later id token s signed_in
        (subst (λ x. (resolve_session P later token x).0.0 ≡ some signed_in) (sym done) h)
