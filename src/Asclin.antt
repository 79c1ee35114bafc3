-- ===== src/Asclin.antt =====
-- The serial driver of tc275_lite/drivers/asclin.
pub mod Server
pub mod Client
pub mod Sent
pub mod Baud
mod Tests
