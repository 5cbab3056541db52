-- ===== src/Certified/RbTree.antt =====
-- ic-kit-certified/src/rbtree.rs: the red-black tree.
pub mod Node
pub mod Keeps
pub mod Insert
pub mod Balance
pub mod Delete
pub mod Query
pub mod Iterator
pub mod Entry
pub mod Witness
