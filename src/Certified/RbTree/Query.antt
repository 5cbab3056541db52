-- ===== src/Certified/RbTree/Query.antt =====
-- The lookups, walks and updates in place of rbtree.rs: `get_with`, `get_node`, `modify`, `for_each`, and
-- the functions on a prefix. A closure that may write to a value returns the value and its result.
pub mod Laws
use Prim.Native.Nat.Ordering.{lt, eq, gt}
use mathlib.Core.Option.{or_else}
use ic_kit.Base.{◌≡◌, Bool, true, false, Option, none, some, Ordering}
use ic_kit.Certified.HashTree.{Sha256, HashTree}
use ic_kit.Certified.Label.{Label, AsHashTree}
use ic_kit.Certified.RbTree.Node.{Node, null, node, rehash}
use ic_kit.Certified.RbTree.Insert.{RbTree}
use ic_kit.Certified.RbTree.Witness.{
  KeyBound, neighbor, lower_bound_from, range_witness, witness_tree,
}

-- The trait `Prefix<P>`: `self.borrow().cmp(prefix)` and `self.is_prefix(prefix)`. The laws are what its
-- documentation asks of the order: the keys with a prefix stand together.
pub record Prefix (K P : Type 0) ⦃label : Label K⦄ : Type 0 where
  pub cmp_prefix : K → P → Ordering
  pub is_prefix : K → P → Bool
  pub lt_prefix : (k : K) (p : P) → cmp_prefix k p ≡ lt → is_prefix k p ≡ false
  pub after_prefix :
      (j k : K) (p : P)
      → cmp_prefix j p ≡ gt
      → is_prefix j p ≡ false
      → label.cmp j k ≡ lt
      → is_prefix k p ≡ false
  pub before_prefix :
      (j k : K) (p : P)
      → is_prefix k p ≡ false
      → (cmp_prefix k p ≡ gt → ⊥)
      → label.cmp j k ≡ lt
      → is_prefix j p ≡ false

module _ {K V : Type 0} where
  -- The loop of `get_with`.
  unfoldable pub get_with_from : (K → Ordering) → Node K V → Option V
  get_with_from cmp null = none
  get_with_from cmp (node k v l r _ _) = elim (cmp k) [
    | eq ↦ some v
    | lt ↦ get_with_from cmp l
    | gt ↦ get_with_from cmp r
  ]

  unfoldable pub get_with : (K → Ordering) → RbTree K V → Option V
  unfolding get_with_from
  get_with cmp t = get_with_from cmp t.root

  -- `visit` of `for_each`, over a closure with its state. It is called on no null pointer.
  unfoldable pub visit : {S : Type 0} → (K → V → S → S) → Node K V → S → S
  visit f null s = s
  visit f (node k v l r _ _) s = visit f r (f k v (visit f l s))

  unfoldable pub for_each : {S : Type 0} → (K → V → S → S) → RbTree K V → S → S
  unfolding visit
  for_each f t s = visit f t.root s

-- The arms of the match on a node's key and a prefix in `max_entry_with_prefix` and in
-- `modify_max_with_prefix`: the node itself, its left or its right.
pub data Arm : Type 0 where
  here leftward rightward : Arm

unfoldable pub arm : Ordering → Bool → Arm
arm gt true = here
arm eq true = here
arm gt false = leftward
arm eq false = rightward
arm lt _ = rightward

module _ {K V : Type 0} ⦃label : Label K⦄ ⦃s : Sha256⦄ ⦃tree : AsHashTree V⦄ where
  -- `go` of `modify`: the subtree, each node on the way with its hash computed anew, and the closure's result,
  -- `none` where the key is not there.
  unfoldable pub modify_from : {T : Type 0} → K → (V → V × T) → Node K V → Node K V × Option T
  unfolding rehash
  modify_from key f null = (null, none)
  modify_from key f (node k v l r c h) = elim (label.cmp key k) [
    | eq ↦ (rehash (node k (f v).0 l r c h), some (f v).1)
    | lt ↦ let m = modify_from key f l in (rehash (node k v m.0 r c h), m.1)
    | gt ↦ let m = modify_from key f r in (rehash (node k v l m.0 c h), m.1)
  ]

  unfoldable pub modify : {T : Type 0} → K → (V → V × T) → RbTree K V → RbTree K V × Option T
  unfolding modify_from
  modify key f t = let m = modify_from key f t.root in (record t { root = m.0 }, m.1)

module _ {K V P : Type 0} ⦃label : Label K⦄ ⦃prefix : Prefix K P⦄ where
  unfoldable pub max_entry_from : P → Node K V → Option (K × V)
  unfolding arm
  max_entry_from p null = none
  max_entry_from p (node k v l r _ _) = elim (arm (prefix.cmp_prefix k p) (prefix.is_prefix k p)) [
    | here ↦ or_else (max_entry_from p r) (some (k, v))
    | leftward ↦ max_entry_from p l
    | rightward ↦ max_entry_from p r
  ]

  unfoldable pub max_entry_with_prefix : P → RbTree K V → Option (K × V)
  unfolding max_entry_from
  max_entry_with_prefix p t = max_entry_from p t.root

  unfoldable pub right_neighbor_from : P → Node K V → Option (KeyBound K)
  right_neighbor_from p null = none
  right_neighbor_from p (node k v l r _ _) = elim (prefix.cmp_prefix k p) [
    | gt ↦ elim (prefix.is_prefix k p) [
      | true ↦ right_neighbor_from p r
      | false ↦ or_else (right_neighbor_from p l) (some (neighbor k))
    ]
    | _ ↦ right_neighbor_from p r
  ]

  unfoldable pub right_prefix_neighbor : P → RbTree K V → Option (KeyBound K)
  unfolding right_neighbor_from
  right_prefix_neighbor p t = right_neighbor_from p t.root

  module _ ⦃s : Sha256⦄ ⦃tree : AsHashTree V⦄ where
    -- `lower_bound(prefix)` compares the borrowed keys with the prefix.
    unfoldable pub keys_with_prefix : P → RbTree K V → Option HashTree
    unfolding range_witness witness_tree lower_bound_from right_prefix_neighbor
    keys_with_prefix p t =
        range_witness witness_tree (lower_bound_from (λ k. prefix.cmp_prefix k p) t.root)
          (right_prefix_neighbor p t) t

    -- `go` of `modify_max_with_prefix`. Where it finds no key it changes nothing, hashes included, and
    -- hands the closure back.
    unfoldable pub modify_max_from :
        {T : Type 0} → P → (K → V → V × T) → Node K V → Option (Node K V × T)
    unfolding arm rehash
    modify_max_from p f null = none
    modify_max_from p f (node k v l r c h) =
        elim (arm (prefix.cmp_prefix k p) (prefix.is_prefix k p)) [
          | here ↦ elim (modify_max_from p f r) [
            | none ↦ some (rehash (node k (f k v).0 l r c h), (f k v).1)
            | some m ↦ some (rehash (node k v l m.0 c h), m.1)
          ]
          | leftward ↦ elim (modify_max_from p f l) [
            | none ↦ none
            | some m ↦ some (rehash (node k v m.0 r c h), m.1)
          ]
          | rightward ↦ elim (modify_max_from p f r) [
            | none ↦ none
            | some m ↦ some (rehash (node k v l m.0 c h), m.1)
          ]
        ]

    unfoldable pub modify_max_with_prefix :
        {T : Type 0} → P → (K → V → V × T) → RbTree K V → RbTree K V × Option T
    unfolding modify_max_from
    modify_max_with_prefix p f t = elim (modify_max_from p f t.root) [
      | none ↦ (t, none)
      | some m ↦ (record t { root = m.0 }, some m.1)
    ]
