-- ===== src/Examples.antt =====
-- Witnesses of the theorems at concrete inputs, and small tests.
mod Governance
mod Tools
mod Keys
mod Thinking
mod Events
mod Leases
mod Routing
mod Lanes
mod Subtasks
mod Boot
mod Sessions
mod Transcripts
mod Requests
mod Readings
