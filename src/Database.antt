-- ===== src/Database.antt =====
-- The operations on a database, in src/database.c, one module for each group of functions; a
-- child of each has its laws.
pub mod Transactions
pub mod Tables
pub mod Records
pub mod Fields
pub mod IndexOps
pub mod Maintenance
pub mod Invariant
pub mod Reach
