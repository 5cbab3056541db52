-- ===== src/Stable.antt =====
-- ic-kit-stable: the allocator of stable storage.
pub mod Checksum
pub mod Memory
pub mod Hole
pub mod HoleList
pub mod Allocator
