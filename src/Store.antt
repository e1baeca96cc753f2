-- ===== src/Store.antt =====
-- app/services/store.py: the tables of the database, and what the program asks of them. A table is
-- the list of its rows by ascending id; a new row's id is one above the largest, as SQLite gives it.
pub mod Sessions
pub mod Connections
pub mod Settings
pub mod DnsRules
mod Tests
