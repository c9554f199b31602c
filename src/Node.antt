-- ===== src/Node.antt =====
-- The files and database connections that a node opens, and what its constructors leave open.
pub mod Handles
pub mod Appender
pub mod Machine
pub mod Opening
