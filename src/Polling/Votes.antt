-- ===== src/Polling/Votes.antt =====
-- Assignment4/q2.c: which voters the robots are given, and how many votes are cast.
mod Defs
mod Steps
pub use Defs.*
pub use Steps.*
