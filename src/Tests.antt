-- ===== src/Tests.antt =====
-- The theorems applied to a small crew, over the in-memory store and runtime and a list for a bus.
pub mod Crew
pub mod Crews
pub mod Interleavings
pub mod Starting
pub mod Teammates
pub mod Openings
pub mod Tools
pub mod Toys
pub mod Stores
pub mod Cluster
pub mod Reports
pub mod Browsing
pub mod Disks
