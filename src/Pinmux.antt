-- ===== src/Pinmux.antt =====
-- The pin multiplexer of esp32p4_ev_function/drivers/pinmux.
pub mod Server
pub mod Client
pub mod Trip
mod Tests
