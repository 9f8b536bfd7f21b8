-- ===== src/Auth/Service.antt =====
-- apps/api/auth_service.py: sign-in, sessions, and changes of a password.
use payops_intelligence.Prelude.{
  ℕ, ◌+◌, ◌-◌, ◌*◌, Bool, true, not, ◌&&◌, Option, none, some, is_some, ◌∷◌, String, str_eq, ltb,
  leb, take_text, if◌then◌else◌,
}
use payops_intelligence.Auth.Store.{
  AuthUser, AuthSession, Tables, first, update, is_user, has_session_hash, record_audit,
}

-- What the service takes from hashlib (with auth/tokens.py and auth/passwords.py around it), and
-- the text methods of auth/policy.py: `normalize_email` is `str.strip().lower()`, `normalize_name`
-- joins the words of `str.split()` by spaces.
pub record Primitives : Type 0 where
  pub hash_token : String → String
  -- `hash_password`, with its random salt.
  pub hash_password : String → String → String
  pub verify_password : String → String → Bool
  pub dummy_hash : String
  pub normalize_email : String → String
  pub normalize_name : String → String

-- The results of `new_token` and `_utcnow` in one call.
pub record Issued : Type 0 where
  pub raw : String
  pub session_id : String
  pub now : ℕ

abbrev pub hour : ℕ
hour = 3_600_000_000

-- `(user_agent or "")[:240] or None`
unfoldable pub agent_of : Option String → Option String
agent_of none = none
agent_of (some agent) = if str_eq agent "" then none else some (take_text 240 agent)

unfoldable pub session_row :
    Primitives → Issued → (ttl_hours : ℕ) → Option String → AuthUser → AuthSession
unfolding agent_of
session_row P new ttl_hours agent user = record {
  session_id = new.session_id;
  user_id = user.user_id;
  token_hash = P.hash_token new.raw;
  expires_at = new.now + ttl_hours * hour;
  created_at = new.now;
  last_seen_at = new.now;
  revoked_at = none;
  user_agent = agent_of agent;
}

abbrev pub logged_in : ℕ → AuthUser → AuthUser
logged_in now user = record user { last_login_at = some now; last_active_at = some now }

-- `row.revoked_at is not None`
unfoldable pub is_revoked : AuthSession → Bool
is_revoked row = is_some row.revoked_at

-- More than 300 seconds without activity on record.
unfoldable pub is_idle : ℕ → Option ℕ → Bool
is_idle now none = true
is_idle now (some last) = ltb 300_000_000 (now - last)

unfoldable pub revoke_user_sessions : ℕ → String → Tables → Tables
unfolding is_revoked
revoke_user_sessions now id t = record t {
  sessions =
      update (λ row. str_eq row.user_id id && not (is_revoked row))
        (λ row. record row { revoked_at = some now }) t.sessions;
}

-- `actor_id or row.user_id`
unfoldable pub actor_or : Option String → String → String
actor_or none id = id
actor_or (some actor) id = if str_eq actor "" then id else actor

module _ (P : Primitives) where
  unfoldable pub get_user_by_email : Tables → String → Option AuthUser
  get_user_by_email t email = first (λ u. str_eq u.email (P.normalize_email email)) t.users

  unfoldable pub issue_session : Issued → ℕ → Option String → AuthUser → Tables → Tables
  unfolding session_row
  issue_session new ttl_hours agent user t = record t {
    sessions = session_row P new ttl_hours agent user ∷ t.sessions;
    users = update (is_user user.user_id) (logged_in new.now) t.users;
  }

  -- The stored hash that the password is checked against, so that the check is always made.
  unfoldable pub stored_hash : Option AuthUser → String
  stored_hash none = P.dummy_hash
  stored_hash (some user) = user.password_hash

  unfoldable pub admit :
      Option AuthUser
      → Bool
      → Issued
      → ℕ
      → Option String
      → Tables
      → (Option AuthUser × String) × Tables
  unfolding issue_session record_audit
  admit none valid new ttl_hours agent t = ((none, "invalid"), t)
  admit (some user) valid new ttl_hours agent t =
      if not valid
      then ((none, "invalid"), t)
      else if not (str_eq user.status "active")
      then ((none, "suspended"), t)
      else (
        (some (logged_in new.now user), new.raw),
        record_audit "LOGIN" (some user.user_id) (some user.user_id)
            (issue_session new ttl_hours agent user t),
      )

  unfoldable pub authenticate :
      Issued
      → ℕ
      → Option String
      → (email password : String) → Tables
      → (Option AuthUser × String) × Tables
  unfolding admit get_user_by_email stored_hash
  authenticate new ttl_hours agent email password t =
      let user = get_user_by_email t email in
      admit user (P.verify_password password (stored_hash user)) new ttl_hours agent t

  -- `resolve_session` once the session's user is looked up.
  unfoldable pub recognise :
      ℕ → AuthSession → Option AuthUser → Tables → (Option AuthUser × String) × Tables
  unfolding is_idle
  recognise now row none t = ((none, "invalid"), t)
  recognise now row (some user) t =
      if not (str_eq user.status "active")
      then ((none, "invalid"), t)
      else if is_idle now user.last_active_at
      then (
        (some (record user { last_active_at = some now }), "ok"),
        record t {
          users =
              update (is_user user.user_id) (λ u. record u { last_active_at = some now }) t.users;
          sessions =
              update (λ r. str_eq r.session_id row.session_id)
                (λ r. record r { last_seen_at = now }) t.sessions;
        },
      )
      else ((some user, "ok"), t)

  unfoldable pub resolve_row : ℕ → Option AuthSession → Tables → (Option AuthUser × String) × Tables
  unfolding recognise is_revoked
  resolve_row now none t = ((none, "invalid"), t)
  resolve_row now (some row) t =
      if is_revoked row
      then ((none, "invalid"), t)
      else if leb row.expires_at now
      then ((none, "expired"), t)
      else recognise now row (first (is_user row.user_id) t.users) t

  unfoldable pub resolve_session : ℕ → Option String → Tables → (Option AuthUser × String) × Tables
  unfolding resolve_row
  resolve_session now none t = ((none, "missing"), t)
  resolve_session now (some token) t =
      if str_eq token ""
      then ((none, "missing"), t)
      else resolve_row now (first (has_session_hash (P.hash_token token)) t.sessions) t

  -- `revoke_session` once the session is looked up.
  unfoldable pub revoke_row : ℕ → Option String → Option AuthSession → Tables → Tables
  unfolding is_revoked record_audit actor_or
  revoke_row now actor none t = t
  revoke_row now actor (some row) t =
      if is_revoked row
      then t
      else record_audit "LOGOUT" (some (actor_or actor row.user_id)) (some row.user_id) (record t {
        sessions =
            update (λ r. str_eq r.session_id row.session_id)
              (λ r. record r { revoked_at = some now }) t.sessions;
      })

  unfoldable pub revoke_session : ℕ → Option String → Option String → Tables → Tables
  unfolding revoke_row
  revoke_session now none actor t = t
  revoke_session now (some token) actor t =
      if str_eq token ""
      then t
      else revoke_row now actor (first (has_session_hash (P.hash_token token)) t.sessions) t
