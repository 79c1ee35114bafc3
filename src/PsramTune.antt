-- ===== src/PsramTune.antt =====
-- esp32p4_ev_function/board_psram_tune.c: timing tuning of the PSRAM bus. `Window` has the search
-- for a good window, `Fields` the register fields, `Sweep` the tuning procedure over an abstract
-- machine, `Choice` what the sweeps choose, `Tests` runs and instances.
pub mod Window
pub mod Fields
pub mod Sweep
pub mod Choice
pub mod Refine
mod Tests
