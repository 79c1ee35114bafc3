-- ===== src/Gdma.antt =====
-- The AXI DMA driver of esp32p4_ev_function/drivers/gdma_axi.
pub mod Channel
pub mod Receive
pub mod Trip
pub mod Copy
pub mod Server
pub mod Client
pub mod Calls
pub mod Beside
mod Tests
