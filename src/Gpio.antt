-- ===== src/Gpio.antt =====
-- The GPIO driver of tc275_lite/drivers/gpio.
pub mod Eru
pub mod Mask
pub mod Routes
pub mod Events
mod Tests
