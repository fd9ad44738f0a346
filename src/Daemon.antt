-- ===== src/Daemon.antt =====
-- internal/daemon: the order in which the components are initialised, and the daemon's run.
pub mod Order
pub mod Ordering
pub mod Visiting
pub mod Resolution
pub mod Lifecycle
pub mod Calls
pub mod Initialising
pub mod Setup
pub mod Runs
