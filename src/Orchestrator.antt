-- ===== src/Orchestrator.antt =====
-- internal/orchestrator/task: subtasks, the batches that they run in, and their execution.
pub mod Batches
pub mod Counting
pub mod Linking
pub mod Rounds
pub mod Schedule
pub mod Verdict
pub mod Acceptance
pub mod Session
pub mod Command
pub mod Parsing
pub mod Tools
pub mod Skills
pub mod Requests
pub mod Kernel
pub mod History
pub mod Normalizing
pub mod Decomposition
pub mod Dag
pub mod Execution
pub mod Results
