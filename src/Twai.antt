-- ===== src/Twai.antt =====
-- The CAN driver of esp32p4_ev_function/drivers/can.
pub mod Payload
pub mod Server
pub mod Client
pub mod Words
pub mod Wires
pub mod Taken
pub mod Trip
pub mod Failure
mod Tests
