-- ===== src/Revproxy.antt =====
-- internal/revproxy: the routes of the reverse proxy, and the credentials that it adds.
pub mod Auth
pub mod Middlewares
pub mod Rewrite
pub mod Routes
