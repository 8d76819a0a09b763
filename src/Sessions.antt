-- ===== src/Sessions.antt =====
-- camouflare/sessions.py
pub mod State
pub mod Removal
pub mod Creation
pub mod Registry
pub mod Closing
pub mod Schedules
pub mod Builders
pub mod Untouched
pub mod Pruning
pub mod Departures
pub mod Stages
pub mod Invariant
pub mod Settling
pub mod Counting
pub mod Waking
pub mod Awaiting
pub mod Waiting
pub mod Moves
mod Code
mod Witnesses
