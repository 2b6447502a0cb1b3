-- ===== src/Core.antt =====
-- The use cases' shared logic (internal/core).
pub mod Budgets
pub mod LlmOutput
pub mod Prompt
pub mod Retrieval
pub mod Retry
