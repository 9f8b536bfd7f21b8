-- ===== src/Books.antt =====
-- packages/payops_core/tools/integrity.py and sql_gateway.py: checks of the payments on record, and
-- rates over them.
pub mod Rows
pub mod Integrity
pub mod Metrics
pub mod Breakdowns
pub mod Gateway
