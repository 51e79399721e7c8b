-- ===== src/Sessions.antt =====
-- internal/sessions: the session store of the login server and the reverse proxy.
pub mod Maker
pub mod Context
pub mod Store
pub mod Keeps
pub mod Tokens
pub mod Setup
