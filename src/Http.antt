-- ===== src/Http.antt =====
-- The HTTP transport of src/camouflare/http_transport.py.
pub mod Slots
pub mod Admission
pub mod Capacity
pub mod Quiescing
pub mod Bodies
pub mod Limits
pub mod Chunking
pub mod Urls
pub mod Addresses
pub mod Targets
pub mod Fetch
pub mod Redirects
pub mod Bounded
pub mod Origins
pub mod Guarded
pub mod Responses
pub mod Failures
pub mod Blame
pub mod Delivery
pub mod Settled
mod Witnesses
