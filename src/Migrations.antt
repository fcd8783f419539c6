-- ===== src/Migrations.antt =====
-- The migrations of the databases of five services (src/database/migrations of each).
pub mod Ddl
pub mod Orders
pub mod Stock
pub mod Logs
pub mod Revert
