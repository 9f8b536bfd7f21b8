-- ===== src/Auth.antt =====
-- apps/api/auth_service.py and routers/auth.py, packages/payops_core/auth and the accounts of routers/admin.py: users,
-- sessions, password resets and what administrators do.
pub mod Store
pub mod Rows
pub mod Service
pub mod Policy
pub mod Passwords
pub mod Accounts
pub mod Admin
pub mod Routes
pub mod Sessions
pub mod Resets
pub mod Suspension
pub mod Users
pub mod Upkeep
pub mod Guards
pub mod History
