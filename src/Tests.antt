-- ===== src/Tests.antt =====
-- The theorems at concrete inputs.
pub mod Store
pub mod Nodes
pub mod Alerts
pub mod Requests
pub mod Proxy
pub mod Worker
pub mod Storage
pub mod Joined
