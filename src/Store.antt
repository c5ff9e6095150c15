-- ===== src/Store.antt =====
-- apps/hermesd/src/adapters: the durable stores in SQLite. A table is the list of its rows, and an SQL
-- statement of the source a function on it. A transaction that fails leaves the tables as they were.
pub mod Table
pub mod Session
pub mod Delegation
pub mod Ledger
