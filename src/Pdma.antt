-- ===== src/Pdma.antt =====
-- The AHB DMA driver of esp32p4_ev_function/drivers/dma.
pub mod Channel
pub mod Server
pub mod Client
pub mod Apart
pub mod Calls
mod Tests
