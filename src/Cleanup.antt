-- ===== src/Cleanup.antt =====
-- camouflare/cleanup.py
pub mod State
pub mod Groups
pub mod Ownership
pub mod Supervise
pub mod Events
pub mod Renewal
pub mod Idling
pub mod Tracking
pub mod World
pub mod Operations
pub mod Wakeups
pub mod Deadlines
mod Witnesses
