-- ===== src/Certified/Seq.antt =====
-- ic-kit-certified/src/collections/seq.rs: an append-only list with the digest of its chain of items.
-- A slice that starts past the end panics, which is `none`.
pub mod Laws
use ic_kit.Base.{
  ℕ, zero, suc, ◌≡◌, refl, Bool, Option, none, some, ◌>>=◌, List, [], ◌∷◌, ◌++◌, length, ◌==◌,
}
use ic_kit.Certified.HashTree.{Bytes, Hash, Sha256, HashTree, pruned, reconstruct}
use ic_kit.Certified.Label.{AsHashTree}

pub record Seq (T : Type 0) : Type 0 where
  pub hash : Hash
  pub items : List T

unfoldable pub zeros : ℕ → Bytes
zeros zero = []
zeros (suc n) = 0 ∷ zeros n

-- `self.items[start..]`
unfoldable pub items_from : {T : Type 0} → ℕ → List T → Option (List T)
items_from zero items = some items
items_from (suc start) [] = none
items_from (suc start) (x ∷ items) = items_from start items

module _ {T : Type 0} where
  unfoldable pub new : Seq T
  unfolding zeros
  new = record { hash = zeros 32; items = [] }

  unfoldable pub clear : Seq T → Seq T
  unfolding zeros
  clear q = record q { hash = zeros 32; items = [] }

  unfoldable pub is_empty : Seq T → Bool
  is_empty q = length q.items == 0

  unfoldable pub len : Seq T → ℕ
  len q = length q.items

module _ {T : Type 0} ⦃s : Sha256⦄ ⦃tree : AsHashTree T⦄ where
  unfoldable pub append : T → Seq T → Seq T
  append item q = record {
    hash = s.digest (q.hash ++ tree.root_hash item);
    items = q.items ++ item ∷ [];
  }

  -- The loop of `recompute_hash`.
  unfoldable pub chain_hash : Hash → List T → Hash
  chain_hash hash [] = hash
  chain_hash hash (item ∷ items) = chain_hash (s.digest (hash ++ tree.root_hash item)) items

  unfoldable pub recompute_hash : ℕ → Seq T → Option (Seq T)
  unfolding chain_hash items_from
  recompute_hash prev_len q = do
    added ← items_from prev_len q.items
    some (record q { hash = chain_hash q.hash added })

  -- `From<Vec<T>>`, as `FromIterator`, the two conversions from slices and `Deserialize` do it too.
  unfoldable pub from_vec : List T → Option (Seq T)
  unfolding recompute_hash zeros
  from_vec items = recompute_hash 0 (record { hash = zeros 32; items = items })

  unfoldable pub extend : List T → Seq T → Option (Seq T)
  unfolding recompute_hash
  extend added q =
      let prev_len = length q.items in
      recompute_hash prev_len (record q { items = q.items ++ added })

  pub hash-reconstruct : (q : Seq T) → q.hash ≡ reconstruct (pruned q.hash)
  unfolding reconstruct
  hash-reconstruct q = refl

  -- `impl AsHashTree for Seq<T>`
  instance unfoldable pub seq_tree : AsHashTree (Seq T)
  seq_tree = record {
    root_hash = λ q. q.hash;
    as_hash_tree = λ q. pruned q.hash;
    root_hash_lem = hash-reconstruct;
  }
