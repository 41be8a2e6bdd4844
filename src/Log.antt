-- ===== src/Log.antt =====
-- atb_sak/src/cfg and atb_sak/src/log: the configuration file, and the log file that is changed every day.
pub mod Config
pub mod Host
pub mod Appender
pub mod Logging
pub mod Keeping
pub mod Rotation
mod Tests
