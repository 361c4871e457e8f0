-- ===== src/Shm.antt =====
-- src/shm.rs: the decision store in shared memory.
pub mod Entry
pub mod Hash
pub mod Probe
pub mod Scenario
pub mod State
pub mod Find
pub mod Lookup
pub mod Update
pub mod Counters
pub mod Key
pub mod Table
pub mod Valid
pub mod View
pub mod Zone
pub mod Metrics
pub mod Trace
pub mod Lifecycle
