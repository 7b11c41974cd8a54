-- ===== src/Polling.antt =====
-- Assignment4/q2.c: voters, robots and voting machines at one polling booth.
--
-- The program starts one thread for each robot and each machine. They share the booth, and all
-- but a few reads of it stand under the booth's mutex. `Booth` holds the state and what each
-- thread does between two points at which another thread may run; `System` interleaves them.
pub mod Booth
pub mod System
mod Schedules
pub mod Occupancy
pub mod Votes
pub mod Safety
pub mod Race
pub mod Ends
pub mod Progress
mod Examples
