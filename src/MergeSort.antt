-- ===== src/MergeSort.antt =====
-- Assignment4/q3_normal.c, q3_forked.c and q3_threaded.c: three merge sorts of an int array.
--
-- `Ordered` holds what it means to sort; `Passes` the loops that the three programs share.
pub mod Ordered
pub mod Passes
pub mod Stretch
pub mod Normal
pub mod Threaded
pub mod Forked
pub mod Agreement
mod Examples
