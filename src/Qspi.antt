-- ===== src/Qspi.antt =====
-- The flash driver of witte_linum/drivers/qspi.
pub mod Server
pub mod Client
pub mod Popped
pub mod Reply
pub mod Trip
mod Tests
