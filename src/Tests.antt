-- ===== src/Tests.antt =====
-- The theorems at concrete inputs.
pub mod Memory
pub mod Redis
pub mod Requests
pub mod Sessions
pub mod Expiry
pub mod Tokens
pub mod Proxy
pub mod Logins
pub mod Repository
pub mod Serving
pub mod Logged
pub mod Configs
pub mod Verification
pub mod Start
pub mod Database
pub mod Fields
