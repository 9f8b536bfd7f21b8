-- ===== src/Auth/Passwords.antt =====
-- apps/api/auth_service.py: `reset_password` and `change_password`.
use payops_intelligence.Prelude.{
  ℕ, Bool, true, false, not, ◌||◌, Option, none, some, is_some, String, str_eq, leb, if◌then◌else◌,
}
use payops_intelligence.Auth.Store.{
  AuthUser, PasswordResetToken, Tables, first, update, is_user, has_reset_hash, record_audit,
}
use payops_intelligence.Auth.Service.{Primitives, revoke_user_sessions}

-- What a change of password returns; `hash_password` raises a `ValueError` on an empty one.
pub data Change : Type 0 where
  replied : Bool → Change
  value_error : Change

module _ (P : Primitives) where
  unfoldable pub set_password : (salt password id : String) → Tables → Tables
  set_password salt password id t = record t {
    users =
        update (is_user id) (λ u. record u { password_hash = P.hash_password salt password })
          t.users;
  }

  -- `reset_password` once the token's user is looked up.
  unfoldable pub reset_user :
      (now later : ℕ) (salt password : String)
      → PasswordResetToken
      → Option AuthUser
      → Tables
      → Change × Tables
  unfolding set_password revoke_user_sessions record_audit
  reset_user now later salt password row none t = (replied false, t)
  reset_user now later salt password row (some user) t =
      if not (str_eq user.status "active")
      then (replied false, t)
      else if str_eq password ""
      then (value_error, t)
      else let t' = set_password salt password user.user_id t in
        let marked = record t' {
          resets =
              update (λ r. str_eq r.token_id row.token_id) (λ r. record r { used_at = some now })
                t'.resets;
        } in
        (
          replied true,
          record_audit "PASSWORD_RESET" (some user.user_id) (some user.user_id)
              (revoke_user_sessions later user.user_id marked),
        )

  unfoldable pub reset_row :
      (now later : ℕ) (salt password : String)
      → Option PasswordResetToken
      → Tables
      → Change × Tables
  unfolding reset_user
  reset_row now later salt password none t = (replied false, t)
  reset_row now later salt password (some row) t =
      if is_some row.used_at || leb row.expires_at now
      then (replied false, t)
      else reset_user now later salt password row (first (is_user row.user_id) t.users) t

  unfoldable pub reset_password :
      (now later : ℕ) (salt token password : String) → Tables → Change × Tables
  unfolding reset_row
  reset_password now later salt token password t =
      reset_row now later salt password (first (has_reset_hash (P.hash_token token)) t.resets) t

  unfoldable pub change_password :
      (now : ℕ) (salt : String)
      → AuthUser
      → (current new_password : String) → Tables
      → Change × Tables
  unfolding set_password revoke_user_sessions
  change_password now salt user current new_password t =
      if not (P.verify_password current user.password_hash)
      then (replied false, t)
      else if str_eq new_password ""
      then (value_error, t)
      else (
        replied true,
        revoke_user_sessions now user.user_id (set_password salt new_password user.user_id t),
      )
