-- ===== src/Db.antt =====
-- The PostgreSQL database that every service shares, and its transactions.
pub mod Rows
pub mod Tx
