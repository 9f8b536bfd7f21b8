-- ===== src/Tests.antt =====
-- Runs of the models at concrete inputs, and the theorems there.
mod Accounts
mod Agents
mod Archive
mod Auth
mod Books
mod Graph
mod Inspector
mod Ledger
mod Rag
mod Routes
mod Webhooks
