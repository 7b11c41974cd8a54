-- ===== src/Kernel.antt =====
-- Assignment5/xv6-public: what the assignment adds to xv6, as far as its code is there.
--
-- `Table` is sys_getptable of sysproc.c, `Invert` the program invertcase.c.
pub mod Table
pub mod Invert
mod Examples
