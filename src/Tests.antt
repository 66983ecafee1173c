-- ===== src/Tests.antt =====
-- Concrete data and runs, one for each result that has a condition.
mod Data
mod Tables
mod Records
mod Searches
mod Calls
mod Others
mod Json
mod Rows
