-- ===== src/Db.antt =====
-- crates/db: the status codes that the database stores.
pub mod Models
