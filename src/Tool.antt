-- ===== src/Tool.antt =====
-- internal/tool: the values that tools take, the check of their input, the registry and the runner.
pub mod Validator
pub mod Registry
pub mod Runner
pub mod Session
