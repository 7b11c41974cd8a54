-- ===== src/Polling/Occupancy.antt =====
-- Assignment4/q2.c: how many robots each machine serves, and why no assertion fails.
mod Defs
mod Robots
mod Machines
pub use Defs.*
pub use Robots.*
pub use Machines.*
