-- ===== src/Cannon.antt =====
-- The program under cannon/: a server that answers queries from a table of fixed-width entries.
pub mod BytesHash
pub mod HashMap
pub mod Lookup
pub mod Storage
pub mod Server
pub mod Schema
