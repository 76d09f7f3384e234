-- ===== src/Db.antt =====
-- The server's key value store, server/db: its interface, its keys and the in-memory store.
pub mod Types
pub mod Keys
pub mod Memory
pub mod Laws
