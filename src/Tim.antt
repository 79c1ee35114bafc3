-- ===== src/Tim.antt =====
-- The PWM driver of witte_linum/drivers/pwm.
pub mod Server
pub mod Client
pub mod Period
pub mod Fits
pub mod Valid
pub mod Calls
mod Tests
