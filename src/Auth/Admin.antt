-- ===== src/Auth/Admin.antt =====
-- apps/api/routers/admin.py: what an administrator does to users. An `HTTPException` leaves the
-- tables as they were, since the handlers commit last.
use payops_intelligence.Prelude.{
  ℕ, Bool, true, false, ◌&&◌, Option, none, some, String, ◌==◌, is_id, if◌then◌else◌,
}
use payops_intelligence.Auth.Store.{AuthUser, Tables, first, update, is_user, record_audit}
use payops_intelligence.Auth.Service.{revoke_user_sessions}
use payops_intelligence.Auth.Accounts.{is_admin, count_active_admins}

-- The public part of a user, or the status and detail of an `HTTPException`.
pub data Reply : Type 0 where
  answered : AuthUser → Reply
  refused : ℕ → String → Reply

pub data Role : Type 0 where
  user_role admin_role : Role

abbrev pub role_text : Role → String
role_text user_role = "user"
role_text admin_role = "admin"

abbrev pub set_status : String → AuthUser → AuthUser
set_status status user = record user { status = status }

abbrev pub set_role : String → AuthUser → AuthUser
set_role role user = record user { role = role }

-- `count_active_admins(session, exclude_user_id=user.user_id) == 0`
unfoldable pub is_last_admin : Tables → AuthUser → Bool
unfolding count_active_admins
is_last_admin t user = is_admin user && count_active_admins t (some user.user_id) == 0

module _ (actor : AuthUser) where
  unfoldable pub suspend_found : ℕ → Option AuthUser → Tables → Reply × Tables
  unfolding is_last_admin record_audit revoke_user_sessions
  suspend_found now none t = (refused 404 "user not found", t)
  suspend_found now (some user) t =
      if is_last_admin t user then (refused 400 "Cannot suspend the last active admin.", t) else (
        answered (set_status "suspended" user),
        record_audit "USER_SUSPENDED" (some actor.user_id) (some user.user_id) (
            revoke_user_sessions now user.user_id (record t {
              users = update (is_user user.user_id) (set_status "suspended") t.users;
            })),
      )

  unfoldable pub suspend_user : ℕ → String → Tables → Reply × Tables
  unfolding suspend_found
  suspend_user now id t =
      if is_id id
      then suspend_found now (first (is_user id) t.users) t
      else (refused 400 "invalid id", t)

  unfoldable pub activate_found : Option AuthUser → Tables → Reply × Tables
  unfolding record_audit
  activate_found none t = (refused 404 "user not found", t)
  activate_found (some user) t = (
    answered (set_status "active" user),
    record_audit "USER_ACTIVATED" (some actor.user_id) (some user.user_id)
        (record t { users = update (is_user user.user_id) (set_status "active") t.users }),
  )

  unfoldable pub activate_user : String → Tables → Reply × Tables
  unfolding activate_found
  activate_user id t =
      if is_id id
      then activate_found (first (is_user id) t.users) t
      else (refused 400 "invalid id", t)

  abbrev pub is_demotion : Role → Bool
  is_demotion user_role = true
  is_demotion admin_role = false

  unfoldable pub change_found : Role → Option AuthUser → Tables → Reply × Tables
  unfolding is_last_admin record_audit
  change_found role none t = (refused 404 "user not found", t)
  change_found role (some user) t =
      if is_demotion role && is_last_admin t user
      then (refused 400 "Cannot remove the last active admin.", t)
      else (
        answered (set_role (role_text role) user),
        record_audit "ROLE_CHANGED" (some actor.user_id) (some user.user_id) (record t {
          users = update (is_user user.user_id) (set_role (role_text role)) t.users;
        }),
      )

  unfoldable pub change_role : String → Role → Tables → Reply × Tables
  unfolding change_found
  change_role id role t =
      if is_id id
      then change_found role (first (is_user id) t.users) t
      else (refused 400 "invalid id", t)
