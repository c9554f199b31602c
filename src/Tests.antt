-- ===== src/Tests.antt =====
-- Runs of the development's theorems on concrete logs, nodes and files.
pub mod Log
pub mod Machine
pub mod Members
pub mod Gated
pub mod Proposals
pub mod Election
pub mod Index
pub mod Tables
pub mod Store
pub mod Logs
pub mod Transport
pub mod Dumps
pub mod Nodes
pub mod Appends
pub mod Restores
