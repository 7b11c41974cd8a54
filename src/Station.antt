-- ===== src/Station.antt =====
-- Assignment4/q1_temp.c: cars at a petrol station, who queue, are served and pay.
--
-- `Defs` holds the threads and what they share, `Queue` what holds of the queue and the pumps, `Money`
-- of the payments, `Pumps` of the number at the pumps.
pub mod Defs
pub mod Queue
pub mod Money
pub mod Pumps
mod Examples
