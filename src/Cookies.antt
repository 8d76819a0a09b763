-- ===== src/Cookies.antt =====
-- Cookies: the policy of src/camouflare/http_transport.py for those of responses, the checks of
-- src/camouflare/models.py for those of requests, and the merge of src/camouflare/solution.py.
pub mod Jar
pub mod Policy
pub mod Merge
pub mod Latest
pub mod Fields
pub mod Requests
pub mod Soundness
pub mod Validation
mod Witnesses
