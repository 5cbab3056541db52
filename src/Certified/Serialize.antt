-- ===== src/Certified/Serialize.antt =====
-- `impl Serialize for HashTree` of ic-kit-certified/src/hashtree.rs: the calls that it makes of a serde
-- serializer, in their order; an element that is a tree makes its own calls in between.
pub mod Laws
use ic_kit.Base.{ℕ, List, [], ◌∷◌, ◌++◌}
use ic_kit.Certified.HashTree.{Bytes, HashTree, empty, fork, labeled, leaf, pruned}

pub data Call : Type 0 where
  serialize_seq : ℕ → Call
  element_u8 : ℕ → Call
  element_bytes : Bytes → Call
  end : Call

unfoldable pub serialize : HashTree → List Call
serialize empty = serialize_seq 1 ∷ element_u8 0 ∷ end ∷ []
serialize (fork l r) = serialize_seq 3 ∷ element_u8 1 ∷ (serialize l ++ (serialize r ++ end ∷ []))
serialize (labeled label tree) =
    serialize_seq 3 ∷ element_u8 2 ∷ element_bytes label ∷ (serialize tree ++ end ∷ [])
serialize (leaf bytes) = serialize_seq 2 ∷ element_u8 3 ∷ element_bytes bytes ∷ end ∷ []
serialize (pruned digest) = serialize_seq 2 ∷ element_u8 4 ∷ element_bytes digest ∷ end ∷ []
