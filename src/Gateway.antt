-- ===== src/Gateway.antt =====
-- cmd/gateway/main.go: how the parts are put together, and what happens around the requests.
pub mod Database
pub mod Errors
pub mod Middlewares
pub mod Start
