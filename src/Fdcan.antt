-- ===== src/Fdcan.antt =====
-- The CAN driver of witte_linum/drivers/can.
pub mod Server
pub mod Client
pub mod Memory
pub mod Trip
mod Tests
