-- ===== src/Badminton.antt =====
-- Assignment4/q1.c: players and referees who form teams at a badminton academy.
--
-- `Court` holds the threads and what they share, `Counters` and `Plan` what the organiser keeps,
-- `Early` and `Wake` the two ways in which a team is lost, `Teams` how one plays, and `Arrivals` the
-- order in which `main` starts the threads.
pub mod Court
pub mod Counters
pub mod Plan
pub mod Early
pub mod Teams
pub mod Wake
pub mod Arrivals
mod Examples
