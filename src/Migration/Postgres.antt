-- ===== src/Migration/Postgres.antt =====
-- The PostgreSQL backend (migration/backend/postgresql.rs).
pub mod Splitter
pub mod Tokens
pub mod Scanned
pub mod Dollar
pub mod Split
