-- ===== src/Rag.antt =====
-- packages/payops_core/rag/loop.py and rewrite.py: the bounded search for documents.
pub mod Types
pub mod Tables
pub mod Rewrite
pub mod Loop
