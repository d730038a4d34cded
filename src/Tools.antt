-- ===== src/Tools.antt =====
-- core/tools: resource claims and the coordinator of tool calls.
pub mod Claims
pub mod Coordinator
pub mod Pattern
pub mod Limits
pub mod Quota
pub mod Envelope
