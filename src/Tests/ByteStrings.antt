-- ===== src/Tests/ByteStrings.antt =====
-- Byte strings as keys, at a small tree.
use mathlib.Core.Option.{or_else}
use ic_kit.Base.{ℕ, ◌≡◌, refl, [], ◌∷◌, some}
use ic_kit.Certified.HashTree.{Bytes}
use ic_kit.Certified.Assoc.{Sorted}
use ic_kit.Certified.RbTree.Node.{node, null, black}
use ic_kit.Certified.RbTree.Keeps.{entries}
use ic_kit.Certified.RbTree.Insert.{RbTree}
use ic_kit.Certified.RbTree.Query.{max_entry_with_prefix}
use ic_kit.Certified.ByteKeys.{cmp_bytes, bytes_label, bytes_prefix, starts_with}

-- The keys [1], [1, 2] and [2].
strings : RbTree Bytes ℕ
strings = record {
  len = 3;
  root =
      node (1 ∷ 2 ∷ []) 12 (node (1 ∷ []) 1 null null black []) (node (2 ∷ []) 2 null null black [])
        black [];
}

strings-Sorted : Sorted (entries strings.root)
unfolding strings bytes_label cmp_bytes
strings-Sorted = ((refl, (refl, tt)), ((refl, tt), (tt, tt)))

greatest : max_entry_with_prefix {P = Bytes} (1 ∷ []) strings ≡ some (1 ∷ 2 ∷ [], 12)
unfolding strings max_entry_with_prefix bytes_prefix cmp_bytes starts_with or_else
greatest = refl
