-- ===== src/Models.antt =====
-- internal/models: tokens, token sets and sessions.
pub mod Token
pub mod TokenSet
pub mod Session
