-- ===== src/I2c.antt =====
-- The I2C driver of esp32p4_ev_function/drivers/i2c.
pub mod Server
pub mod Client
pub mod Queue
pub mod Transfer
pub mod Receive
pub mod Cut
mod Tests
