-- ===== src/Shell.antt =====
-- Assignment3/wonderShell/wonderShell.c: the shell.
--
-- `Text` holds its string functions and `Number` the `strtol` that it uses; `Parse` splits a line into
-- commands; `Main`, `Pipeline`, `Redirect`, `Dispatch`, `Inbuild` and `Process` run them, from the loop
-- of main down to a process. `Jobs` is the list of background jobs, `Reminder` the message of
-- `remindme`, `Flags` the options of ls, `Listing`, `Clock` and `Pinfo` what ls, clock and pinfo print
-- (`Display`, `Shows`) and `Signals` the handlers. `Restores` follows the open files of the shell.
pub mod Text
pub mod Number
pub mod Parse
pub mod Flags
pub mod Listing
pub mod Clock
pub mod Pinfo
pub mod Display
pub mod Jobs
pub mod Reminder
pub mod Process
pub mod Inbuild
pub mod Dispatch
pub mod Redirect
pub mod Shows
pub mod Signals
pub mod Pipeline
pub mod Main
pub mod Restores
mod Examples
mod Runs
mod Stages
mod Session
mod Prints
