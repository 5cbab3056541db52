-- ===== src/Tests/Queries.antt =====
-- The theorems of the queries, the iterator and the entries at the tree of Tests/Tree.antt.
use Prim.Native.Nat.Ordering.{lt, gt}
use ic_kit.Base.{ℕ, ◌/◌, ◌≡◌, compare, false, List, [], ◌∷◌, length, Returns, ◌==◌, arith}
use ic_kit.Certified.Label.{u8_label, vec_tree}
use ic_kit.Certified.Assoc.{find, put}
use ic_kit.Certified.RbTree.Keeps.{entries}
use ic_kit.Certified.RbTree.Insert.{get}
use ic_kit.Certified.RbTree.Query.{Prefix, modify, max_entry_with_prefix}
use ic_kit.Certified.RbTree.Query.Laws.{
  ModifiedIn, modify-put, last_with, max_entry_with_prefix-last,
}
use ic_kit.Certified.RbTree.Iterator.{start}
use ic_kit.Certified.RbTree.Iterator.Laws.{Yields, start-Yields}
use ic_kit.Certified.RbTree.Entry.{entry, entry_tree, and_modify, or_insert}
use ic_kit.Certified.RbTree.Entry.Laws.{and_modify-root_hash, OrInserted, or_insert-OrInserted}
use ic_kit.Certified.RbTree.Witness.{root_hash}
use ic_kit.Tests.Tree.{B, toy, sample, sample-IsValid, sample_reads}

-- A key's prefix is the number of its tens.
lt-tens : (k p : ℕ) → compare (k / 10) p ≡ lt → (k / 10 == p) ≡ false
lt-tens k p e = ground arith

after-tens :
    (j k p : ℕ)
    → compare (j / 10) p ≡ gt
    → (j / 10 == p) ≡ false
    → compare j k ≡ lt
    → (k / 10 == p) ≡ false
after-tens j k p c q e = ground arith

before-tens :
    (j k p : ℕ)
    → (k / 10 == p) ≡ false
    → (compare (k / 10) p ≡ gt → ⊥)
    → compare j k ≡ lt
    → (j / 10 == p) ≡ false
before-tens j k p q c e = ground arith

instance abbrev tens : Prefix ℕ ℕ
unfolding u8_label
tens = record {
  cmp_prefix = λ k p. compare (k / 10) p;
  is_prefix = λ k p. k / 10 == p;
  lt_prefix = lt-tens;
  after_prefix = after-tens;
  before_prefix = before-tens;
}

gather : ℕ → B → List ℕ → List ℕ
gather k v seen = k ∷ seen

count : B → B × ℕ
count v = (9 ∷ v, length v)

modify-put_example :
    ModifiedIn count 3 sample (modify 3 count sample) (find 3 (entries sample.root))
modify-put_example = modify-put count 3 sample sample-IsValid

max_entry_with_prefix-last_example :
    max_entry_with_prefix {P = ℕ} 0 sample ≡ last_with (λ k. k / 10 == 0) (entries sample.root)
unfolding tens
max_entry_with_prefix-last_example =
    max_entry_with_prefix-last {P = ℕ} 0 sample sample-IsValid.sorted

start-Yields_example : Yields (entries sample.root) (start sample)
start-Yields_example = start-Yields sample sample-IsValid.counted

and_modify-root_hash_example :
    (entries (entry_tree (and_modify (λ v. 9 ∷ v) (entry 3 sample))).root
      ≡ put 3 (9 ∷ 30 ∷ []) (entries sample.root))
    × (root_hash (entry_tree (and_modify (λ v. 9 ∷ v) (entry 3 sample))) ≡ root_hash sample)
and_modify-root_hash_example =
    and_modify-root_hash 3 (λ v. 9 ∷ v) sample (30 ∷ []) sample-IsValid sample_reads

or_insert-OrInserted_example :
    Returns
      (λ p. OrInserted 4 (40 ∷ []) sample p (get 4 sample))
      (or_insert (40 ∷ []) (entry 4 sample))
or_insert-OrInserted_example = or_insert-OrInserted 4 (40 ∷ []) sample sample-IsValid
