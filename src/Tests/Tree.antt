-- ===== src/Tests/Tree.antt =====
-- Runs of the red-black tree over `u8` keys and byte strings, and its theorems at a small tree.
use mathlib.Core.Option
use mathlib.Core.Option.{or_else}
use Prim.Native.Nat.Ordering.{gt}
use ic_kit.Certified.RbTree.Delete.{delete}
use ic_kit.Certified.RbTree.Keeps.{entries}
use ic_kit.Base.{
  ◌>>=◌, map, List, ℕ, ◌+◌, ◌*◌, ◌%◌, ◌≡◌, ◌≢◌, arith, refl, Option, none, some, [], ◌∷◌, Returns,
}
use ic_kit.Certified.HashTree.{Bytes, Sha256, leaf, reconstruct}
use ic_kit.Certified.HashTree.Prunes.{keep}
use ic_kit.Certified.Label.{u8_label, vec_tree}
use ic_kit.Certified.RbTree.Node.{Node, null, node, black, is_red, rehash, set_color, balance}
use ic_kit.Certified.RbTree.Insert.{insert_from, new, RbTree, get, insert}
use ic_kit.Certified.RbTree.Insert.Refines.{IsValid, InsertedIn, insert-put}
use ic_kit.Certified.RbTree.Balance.Insert.{IsBalanced, insert-IsBalanced}
use ic_kit.Certified.RbTree.Witness.{
  bound_key, in_order, lower_bound_from, upper_bound_from, lower_bound, upper_bound,
  witness_range_between, range_witness, root_hash, as_hash_tree, nested_witness, keys, key_range,
  value_range,
}
use ic_kit.Certified.RbTree.Witness.Certifies.{
  Certifies, root_hash-reconstruct, nested_witness-Certifies, range-Certifies,
}
use ic_kit.Certified.RbTree.Witness.Reveals.{Reveals, nested_witness-Reveals}

-- A stand-in for SHA-256: one byte, the sum of the bytes weighted by their place.
weigh : ℕ → ℕ → Bytes → ℕ
weigh acc place [] = acc % 251
weigh acc place (b ∷ bs) = weigh (acc + b * place) (place + 2) bs

instance abbrev pub toy : Sha256
unfolding weigh
toy = record { digest = λ bs. weigh 7 1 bs ∷ [] }

abbrev pub B : Type 0
B = Bytes

abbrev pub T : Type 0
T = RbTree ℕ B

leaf_at : ℕ → ℕ → Node ℕ B
unfolding rehash
leaf_at k b = rehash (node k (b ∷ []) null null black [])

-- 2 over 1 and 3.
abbrev pub sample : T
unfolding rehash leaf_at
sample = record { len = 3; root = rehash (node 2 (20 ∷ []) (leaf_at 1 10) (leaf_at 3 30) black []) }

pub sample-IsValid : IsValid sample
unfolding sample u8_label
sample-IsValid = record {
  sorted = ((refl, (refl, tt)), ((refl, tt), (tt, tt)));
  counted = refl;
  hashed = ((tt, tt, refl), (tt, tt, refl), refl);
}

sample-IsBalanced : IsBalanced sample
unfolding sample is_red
sample-IsBalanced = record {
  uniform = ((tt, tt, refl), (tt, tt, refl), refl);
  leaning = ((tt, tt, refl, refl), (tt, tt, refl, refl), refl, refl);
  black_root = refl;
}

insert-put_example : Returns (InsertedIn 4 (40 ∷ []) sample) (insert 4 (40 ∷ []) sample)
insert-put_example = insert-put 4 (40 ∷ []) sample sample-IsValid

insert-IsBalanced_example :
    Returns (λ (p : T × Option B). IsBalanced p.0) (insert 4 (40 ∷ []) sample)
insert-IsBalanced_example = insert-IsBalanced 4 (40 ∷ []) sample sample-IsBalanced

root_hash-reconstruct_example : root_hash sample ≡ reconstruct (as_hash_tree sample)
root_hash-reconstruct_example = root_hash-reconstruct sample sample-IsValid

nested_witness-Certifies_example : Returns (Certifies sample) (nested_witness leaf 3 sample)
nested_witness-Certifies_example =
    nested_witness-Certifies leaf (λ v. unfold vec_tree in keep) 3 sample sample-IsValid

rising : u8_label.cmp 1 2 ≢ gt
unfolding u8_label
rising = ground arith

-- A range from a greater key down to a smaller one, both in the tree, fails an assertion.
falling : key_range 3 1 sample ≡ none
unfolding sample key_range range_witness witness_range_between lower_bound upper_bound in_order
    lower_bound_from upper_bound_from bound_key u8_label or_else
falling = refl

range-Certifies_example :
    Certifies sample (keys sample)
    × Returns (Certifies sample) (key_range 1 2 sample)
    × Returns (Certifies sample) (value_range 1 2 sample)
range-Certifies_example = range-Certifies 1 2 sample rising sample-IsValid

pub sample_reads : get 3 sample ≡ some (30 ∷ [])
unfolding sample get u8_label
sample_reads = refl

nested_witness-Reveals_example :
    Returns (Reveals (3 ∷ []) (leaf (30 ∷ []))) (nested_witness leaf 3 sample)
unfolding u8_label
nested_witness-Reveals_example = nested_witness-Reveals leaf 3 sample sample_reads

-- Insertions that rotate and split, and deletions that borrow from a sibling.
keys_of : T → List ℕ
keys_of t = map (λ (e : ℕ × B). e.0) (entries t.root)

grown : Option T
unfolding insert insert_from set_color balance new u8_label vec_tree
grown = do
  (t, _) ← insert 5 (50 ∷ []) new
  (t, _) ← insert 1 (10 ∷ []) t
  (t, _) ← insert 4 (40 ∷ []) t
  (t, _) ← insert 2 (20 ∷ []) t
  (t, _) ← insert 3 (30 ∷ []) t
  (t, _) ← insert 6 (60 ∷ []) t
  some t

grown_keys : Option.map keys_of grown ≡ some (1 ∷ 2 ∷ 3 ∷ 4 ∷ 5 ∷ 6 ∷ [])
unfolding grown keys_of
grown_keys = refl

shrunk : Option (List ℕ × ℕ × Option (ℕ × B))
unfolding grown delete insert_from u8_label vec_tree keys_of
shrunk = do
  t ← grown
  (t, _) ← delete 4 t
  (t, _) ← delete 1 t
  (t, _) ← delete 9 t
  (t, e) ← delete 5 t
  some (keys_of t, t.len, e)

shrunk_keys : shrunk ≡ some (2 ∷ 3 ∷ 6 ∷ [], 3, some (5, 50 ∷ []))
unfolding shrunk
shrunk_keys = refl
