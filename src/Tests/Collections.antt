-- ===== src/Tests/Collections.antt =====
-- The theorems of the collections, the serializer and the checksum at small values.
use ic_kit.Base.{ℕ, ◌^◌, ◌<◌, ◌≡◌, refl, List, [], ◌∷◌, some, Returns, arith}
use ic_kit.Certified.HashTree.{HashTree, empty, fork, labeled, leaf}
use ic_kit.Certified.Label.{u8_label, vec_tree}
use ic_kit.Certified.Assoc.{find, put}
use ic_kit.Certified.RbTree.Node.{node, null, black, rehash}
use ic_kit.Certified.RbTree.Keeps.{entries}
use ic_kit.Certified.RbTree.Insert.Refines.{IsValid}
use ic_kit.Certified.Seq.{Seq, seq_tree, extend, from_vec}
use ic_kit.Certified.Seq as Seq
use ic_kit.Certified.Seq.Laws.{append_each, extend-append_each}
use ic_kit.Certified.Map.{Map, from_iter, append_deep}
use ic_kit.Certified.Map.Laws.{put_each, Holds, from_iter-put_each, deep, append_deep-put}
use ic_kit.Certified.Serialize.{end}
use ic_kit.Certified.Serialize.Laws.{serialize-inj}
use ic_kit.Stable.Checksum.{seal, verify, unchecked}
use ic_kit.Stable.Checksum.Laws.{verify-seal}
use ic_kit.Tests.Tree.{B, toy}

two : List B
two = (1 ∷ []) ∷ (2 ∷ 3 ∷ []) ∷ []

extend-append_each_example :
    extend two (Seq.append (7 ∷ []) Seq.new) ≡ some (append_each two (Seq.append (7 ∷ []) Seq.new))
extend-append_each_example = extend-append_each two (Seq.append (7 ∷ []) Seq.new)

pairs : List (ℕ × B)
pairs = (2, 20 ∷ []) ∷ (1, 10 ∷ []) ∷ (2, 21 ∷ []) ∷ []

from_iter-put_each_example : Returns (λ m. Holds m (put_each pairs [])) (from_iter pairs)
from_iter-put_each_example = from_iter-put_each pairs

-- A map with one sequence.
single : Map ℕ (Seq B)
unfolding Seq.new Seq.append rehash
single = record {
  inner = record {
    len = 1;
    root = rehash (node 1 (Seq.append (4 ∷ []) Seq.new) null null black []);
  };
}

single-IsValid : IsValid single.inner
unfolding single
single-IsValid = record { sorted = (tt, tt); counted = refl; hashed = (tt, tt, refl) }

append_deep-put_example :
    Returns
      (λ n.
        Holds n
          (put 1 (deep (5 ∷ []) (find 1 (entries single.inner.root))) (entries single.inner.root)))
      (append_deep 1 (5 ∷ []) single)
append_deep-put_example = append_deep-put 1 (5 ∷ []) single single-IsValid

abbrev drawn : HashTree
drawn = fork (labeled (1 ∷ []) (leaf (2 ∷ []))) empty

serialize-inj_example : (drawn ≡ drawn) × ((end ∷ []) ≡ (end ∷ []))
serialize-inj_example = serialize-inj drawn drawn (end ∷ []) (end ∷ []) refl

verify-seal_example :
    Returns
      (λ w. (w < 2 ^ 64) × (verify w ≡ some 224967738283) × (unchecked w ≡ 224967738283))
      (seal 224967738283)
verify-seal_example = verify-seal 224967738283 (omega arith) (omega arith)
