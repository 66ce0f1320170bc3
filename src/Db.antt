-- ===== src/Db.antt =====
-- The SQLite database behind internal/state: its statements and its rows.
pub mod Table
pub mod Schema
pub mod Ledger
