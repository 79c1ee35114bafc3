-- ===== src/Dma.antt =====
-- witte_linum/drivers/dma: the DMA1 stream pool. `Slots` has the server's operations on its slots,
-- `Server` its dispatcher, `Worker` the thread that runs a transfer, `Client` the calls of
-- client.c; `Guard`, `Transfer` and `Wait` prove, `Tests` has runs and instances.
pub mod Slots
pub mod Server
pub mod Worker
pub mod Client
pub mod Poll
pub mod Load
pub mod Transfer
pub mod Fill
pub mod Rounds
pub mod Arm
mod Tests
