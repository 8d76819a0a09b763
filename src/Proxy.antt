-- ===== src/Proxy.antt =====
-- The SOCKS5 bridge of src/camouflare/proxy.py.
pub mod Wire
pub mod Addresses
pub mod Outcomes
pub mod Handshake
pub mod Verbatim
pub mod Silence
pub mod Requests
pub mod Upstream
pub mod Connection
pub mod Dialling
pub mod Tunnels
pub mod Relays
pub mod Replies
pub mod Refusals
pub mod Credentials
pub mod Bridge
pub mod Clients
mod Witnesses
