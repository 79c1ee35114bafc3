-- ===== src/Console.antt =====
-- The console of witte_linum/board_console.c.
pub mod Digits
pub mod Printf
pub mod Buffer
pub mod Step
pub mod Cut
pub mod Server
pub mod Client
pub mod Log
pub mod Written
pub mod Deliver
pub mod Invariant
pub mod Decimal
mod Tests
