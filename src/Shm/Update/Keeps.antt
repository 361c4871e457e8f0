-- ===== src/Shm/Update/Keeps.antt =====
-- Every operation keeps the invariant of the zone.
mod Entries
mod Adds
pub use Entries.*
pub use Adds.*
