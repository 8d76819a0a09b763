-- ===== src/Pool.antt =====
-- camouflare/pool.py
pub mod State
pub mod Recycle
pub mod Create
pub mod Acquire
pub mod Release
pub mod Snapshot
pub mod Lifecycle
pub mod Tasks
pub mod Keeps
pub mod Stable
pub mod Contexts
pub mod Soundness
pub mod World
pub mod Accounting
pub mod Releasing
pub mod Leases
pub mod Closed
pub mod Housed
pub mod Invariant
pub mod Published
pub mod Counts
pub mod Readiness
pub mod Doomed
pub mod Connected
pub mod Retired
pub mod Ceiling
mod Code
mod Witnesses
