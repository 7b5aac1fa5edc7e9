-- ===== src/Config.antt =====
-- app/core/settings.py and app/config: what the program is configured with.
pub mod Settings
pub mod Runtime
pub mod Phase
pub mod Samples
mod Tests
