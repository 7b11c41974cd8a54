-- ===== src/Tutorial.antt =====
-- Assignment3/Tutorial_3: three exercises on descriptors, pipes and processes.
--
-- `Dup` is 1_dup.c and `Single` is 2_pipe.c. `Forked` has the two processes of 3_pipefork.c, `Delivery`
-- and `Ends` follow the word between them; `Words` is what both pipes carry.
pub mod Dup
pub mod Words
pub mod Single
pub mod Forked
pub mod Delivery
pub mod Ends
mod Examples
