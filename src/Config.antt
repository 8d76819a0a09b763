-- ===== src/Config.antt =====
-- camouflare/config.py
pub mod Numbers
pub mod Settings
pub mod Validation
mod Witnesses
