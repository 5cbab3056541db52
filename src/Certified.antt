-- ===== src/Certified.antt =====
-- ic-kit-certified: hash trees, labels, and the red-black tree that certifies its entries.
pub mod HashTree
pub mod Label
pub mod Assoc
pub mod RbTree
pub mod Seq
pub mod Map
pub mod Serialize
pub mod Paged
pub mod ByteKeys
pub mod Group
