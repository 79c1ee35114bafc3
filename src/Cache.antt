-- ===== src/Cache.antt =====
-- Data-cache maintenance of the boards: witte_linum/board_cache.c and
-- esp32p4_ev_function/board_cache.c.
pub mod Linum
pub mod P4
pub mod Cover
pub mod Sync
mod Tests
