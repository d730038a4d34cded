-- ===== src/Loops.antt =====
-- runtime/loops: the budget, the call-ID ledger and the phases of a run.
pub mod Budget
pub mod Admission
pub mod Ledger
pub mod Machine
pub mod Config
pub mod Request
pub mod Policy
pub mod Configured
