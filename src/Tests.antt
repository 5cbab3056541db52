-- ===== src/Tests.antt =====
-- The theorems at concrete inputs, and runs of the models.
mod Tree
mod Queries
mod Collections
mod Pages
mod ByteStrings
mod Messages
mod Replicas
mod Callbacks
mod Groups
mod Holes
mod Allocations
