-- ===== src/Llm.antt =====
-- src/proxyloop/llm: what a model call costs.
pub mod Spend
