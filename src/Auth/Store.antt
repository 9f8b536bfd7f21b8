-- ===== src/Auth/Store.antt =====
-- The tables of packages/payops_core/data/models.py behind the authentication service, as lists of
-- rows. Times are microseconds since 1970. An audit event is kept without its metadata.
use payops_intelligence.Prelude.{
  ℕ, Option, none, some, Bool, List, [], ◌∷◌, map, String, str_eq, if◌then◌else◌,
}

pub record AuthUser : Type 0 where
  pub user_id : String
  pub name : String
  pub email : String
  pub password_hash : String
  pub role : String
  pub status : String
  pub created_at : ℕ
  pub last_login_at : Option ℕ
  pub last_active_at : Option ℕ

pub record AuthSession : Type 0 where
  pub session_id : String
  pub user_id : String
  pub token_hash : String
  pub expires_at : ℕ
  pub created_at : ℕ
  pub last_seen_at : ℕ
  pub revoked_at : Option ℕ
  pub user_agent : Option String

pub record PasswordResetToken : Type 0 where
  pub token_id : String
  pub user_id : String
  pub token_hash : String
  pub expires_at : ℕ
  pub created_at : ℕ
  pub used_at : Option ℕ

pub record AuditEvent : Type 0 where
  pub actor_id : Option String
  pub event_type : String
  pub resource_id : Option String

pub record Tables : Type 0 where
  pub users : List AuthUser
  pub sessions : List AuthSession
  pub resets : List PasswordResetToken
  pub audits : List AuditEvent

-- `select(...).where(test)`: the first row.
abbrev pub first : {R : Type 0} → (R → Bool) → List R → Option R
first test [] = none
first test (row ∷ rows) = if test row then some row else first test rows

-- The rows after an UPDATE of those that pass the test.
abbrev pub update : {R : Type 0} → (R → Bool) → (R → R) → List R → List R
update test change rows = map (λ row. if test row then change row else row) rows

abbrev pub is_user : String → AuthUser → Bool
is_user id user = str_eq user.user_id id

abbrev pub has_session_hash : String → AuthSession → Bool
has_session_hash hash row = str_eq row.token_hash hash

abbrev pub has_reset_hash : String → PasswordResetToken → Bool
has_reset_hash hash row = str_eq row.token_hash hash

unfoldable pub record_audit : String → Option String → Option String → Tables → Tables
record_audit event actor resource t = record t {
  audits = record { actor_id = actor; event_type = event; resource_id = resource } ∷ t.audits;
}
