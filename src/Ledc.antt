-- ===== src/Ledc.antt =====
-- The PWM driver of esp32p4_ev_function/drivers/pwm.
pub mod Hw
pub mod Server
pub mod Client
pub mod Divider
pub mod Fit
pub mod Range
mod Tests
