-- ===== src/Display.antt =====
-- The display driver of witte_linum/drivers/display.
pub mod Server
pub mod Client
pub mod Buffers
pub mod Present
pub mod Torn
mod Tests
