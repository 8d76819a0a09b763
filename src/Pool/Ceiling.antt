-- ===== src/Pool/Ceiling.antt =====
-- camouflare/pool.py: `_physical_generations_unlocked` and the hard ceiling on browser generations.
pub mod Steps
pub mod Sections
pub mod Events
pub mod Marks
pub mod Life
pub mod Requests
pub mod Runs
