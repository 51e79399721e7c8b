-- ===== src/Db.antt =====
-- internal/db: the adapter that keeps tokens and sessions in Redis hashes.
pub mod Client
pub mod Serialize
pub mod TokenRepo
pub mod SessionRepo
pub mod Mock
pub mod Encryption
pub mod Adapter
pub mod Fields
