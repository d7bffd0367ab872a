-- ===== src/Tests.antt =====
-- Concrete runs of the theorems, on small rings, stores and requests.
pub mod Lattices
pub mod Rings
pub mod Setup
pub mod Handlers
pub mod Membership
pub mod Monitor
pub mod Disk
