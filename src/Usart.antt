-- ===== src/Usart.antt =====
-- The serial driver of witte_linum/drivers/uart.
pub mod Server
pub mod Client
pub mod Sent
pub mod Quiet
mod Tests
