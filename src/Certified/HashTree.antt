-- ===== src/Certified/HashTree.antt =====
-- ic-kit-certified/src/hashtree.rs: hash trees and their digests. SHA-256 is the parameter `Sha256`.
pub mod Prunes
use Prim.Native.String.{String}
use Prim.Native.Char.{code}
use ic_kit.Base.{ℕ, ◌%◌, ◌≡◌, refl, List, [], ◌∷◌, ◌++◌, length}

abbrev pub Bytes : Type 0
Bytes = List ℕ

abbrev pub Hash : Type 0
Hash = Bytes

-- The crate `sha2`: the digest of the bytes that the calls of `update` have fed.
pub record Sha256 : Type 0 where
  pub digest : Bytes → Hash

-- `Fork` holds its two trees without the struct `ForkInner`.
pub data HashTree : Type 0 where
  empty : HashTree
  fork : HashTree → HashTree → HashTree
  labeled : Bytes → HashTree → HashTree
  leaf : Bytes → HashTree
  pruned : Hash → HashTree

abbrev pub as_bytes : String → Bytes
as_bytes String.[] = []
as_bytes (String.◌∷◌ c s) = code c ∷ as_bytes s

-- The bytes that the hasher has been fed when `domain_sep` returns.
unfoldable pub domain_sep : String → Bytes
domain_sep s = let bytes = as_bytes s in (length bytes % 256) ∷ bytes

module _ ⦃s : Sha256⦄ where
  unfoldable pub fork_hash : Hash → Hash → Hash
  fork_hash l r = s.digest (domain_sep "ic-hashtree-fork" ++ (l ++ r))

  unfoldable pub leaf_hash : Bytes → Hash
  leaf_hash bytes = s.digest (domain_sep "ic-hashtree-leaf" ++ bytes)

  unfoldable pub labeled_hash : Bytes → Hash → Hash
  labeled_hash label content_hash =
      s.digest (domain_sep "ic-hashtree-labeled" ++ (label ++ content_hash))

  unfoldable pub reconstruct : HashTree → Hash
  reconstruct empty = s.digest (domain_sep "ic-hashtree-empty")
  reconstruct (fork l r) = fork_hash (reconstruct l) (reconstruct r)
  reconstruct (labeled l t) = labeled_hash l (reconstruct t)
  reconstruct (leaf bytes) = leaf_hash bytes
  reconstruct (pruned h) = h

-- `go` of `get_labels`, with the vector that it pushes to.
unfoldable pub push_labels : List Bytes → HashTree → List Bytes
push_labels keys (labeled key value) = push_labels (keys ++ key ∷ []) value
push_labels keys (fork l r) = push_labels (push_labels keys l) r
push_labels keys _ = keys

unfoldable pub get_labels : HashTree → List Bytes
unfolding push_labels
get_labels t = push_labels [] t

unfoldable pub push_leaf_values : List Bytes → HashTree → List Bytes
push_leaf_values values (leaf value) = values ++ value ∷ []
push_leaf_values values (fork l r) = push_leaf_values (push_leaf_values values l) r
push_leaf_values values (labeled _ t) = push_leaf_values values t
push_leaf_values values _ = values

unfoldable pub get_leaf_values : HashTree → List Bytes
unfolding push_leaf_values
get_leaf_values t = push_leaf_values [] t
