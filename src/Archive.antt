-- ===== src/Archive.antt =====
-- apps/api/store.py and apps/api/routers/investigations.py: finished investigations, kept with the
-- evidence that they cite.
pub mod Rows
pub mod Index
pub mod Store
pub mod Requests
