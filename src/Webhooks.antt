-- ===== src/Webhooks.antt =====
-- packages/payops_core/tools/webhook_analysis.py and webhook_gateway.py: what stored webhook events
-- show of the payments that they belong to.
pub mod Rows
pub mod Analysis
pub mod Findings
pub mod Gateway
