-- ===== src/FirstShell.antt =====
-- Assignment2/wonderShell/wonderShell.c: the first state of the shell, without jobs, redirections and
-- pipes.
--
-- Its clkCmd, replaceWord, replaceAll, chkAlarm, chkFlgOrPath, parsePath, ls and the end of setAlarm are
-- the same text as in Assignment3/wonderShell/wonderShell.c, whose definitions stand for them. `Status` is
-- what it reads for pinfo, `Commands` its executeInbuild and processes, `Lines` the loop of main.
pub mod Status
pub mod Commands
pub mod Lines
mod Examples
