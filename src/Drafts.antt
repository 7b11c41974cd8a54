-- ===== src/Drafts.antt =====
-- Assignment3/wonderShell/exp.c, wonder.c and exp1.c: the three states of the shell before
-- wonderShell.c, in this order.
--
-- Only what differs is modelled; all the other functions are those of wonderShell.c, which `Shell`
-- has. `Scan` is the loop of chkFile, `Exp` what exp.c does at redirections and at Ctrl-C, `Exp1` the
-- redirections of exp1.c and wonder.c, `Errlog` the pipelines of exp.c and wonder.c; `Laws` and
-- `Echo` compare what they do for a command, `Leaks` counts the descriptors that a pipeline opens.
pub mod Scan
pub mod Exp
pub mod Exp1
pub mod Errlog
pub mod Laws
pub mod Echo
pub mod Leaks
mod Examples
