-- ===== src/Migration.antt =====
-- The schema migration manager (src/migration).
pub mod Types
pub mod Lineage
pub mod Naming
pub mod Artifact
pub mod Backend
pub mod Schema
pub mod Normalize
pub mod Sqlite
pub mod MySql
pub mod Postgres
pub mod Generated
pub mod Manager
pub mod Tests
