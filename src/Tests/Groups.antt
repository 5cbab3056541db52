-- ===== src/Tests/Groups.antt =====
-- A group of two leaves, the witness of one, and a builder of a group.
use ic_kit.Base.{◌≡◌, refl, [], ◌∷◌, none, some, Returns}
use ic_kit.Dict.{find, put}
use ic_kit.Certified.HashTree.{Bytes, Sha256, HashTree, reconstruct}
use ic_kit.Certified.Label.{vec_tree}
use ic_kit.Certified.Group.{
  fork, labeled, leaf, Group, Ray, init, new_ray, visit_all, partial, group_root_hash, build,
}
use ic_kit.Certified.Paged.Key.{lexicographic}
use ic_kit.Certified.ByteKeys.{cmp_bytes}
use ic_kit.Certified.Group.Builder.{
  GroupBuilderNode, directory, child, no_children, GroupBuilder, new, insert, insert_node, child_at,
  set_child, leaf_entry, dir_entry, balance, build_node, build_group,
}
use ic_kit.Certified.Group.Shown.{LeafUnder}
use ic_kit.Certified.Group.Filled.{made_new, made_insert, by_last, build_group-LeafUnder}
use ic_kit.Certified.Group.Leaves.{Complete}
use ic_kit.Certified.Group.Built.{start, adds, build-root_hash}

instance abbrev toy_digest : Sha256
toy_digest = record { digest = λ bytes. bytes }

abbrev two_leaves : Group Bytes
two_leaves = record {
  root = fork 0 (labeled 0 (1 ∷ []) (leaf 0 7)) (labeled 0 (2 ∷ []) (leaf 0 8));
  values = (7, 5 ∷ []) ∷ (8, 6 ∷ []) ∷ [];
  dependencies = [];
}

-- The ray that shows the leaf of type 8.
abbrev second : Ray Bytes
second = record {
  group = init two_leaves;
  to_visit = 4 ∷ 3 ∷ 0 ∷ [];
  leaves = (8, HashTree.leaf (6 ∷ [])) ∷ [];
}

two_leaves-Complete : Complete (init two_leaves).root (init two_leaves)
unfolding init find
two_leaves-Complete = ((λ e. cc), (λ e. cc))

second_run : partial 8 HashTree.leaf (new_ray (init two_leaves)) ≡ some second
unfolding partial init new_ray visit_all find put
second_run = refl

leaf_hash_lem : (value : Bytes) → reconstruct (HashTree.leaf value) ≡ vec_tree.root_hash value
unfolding vec_tree reconstruct
leaf_hash_lem value = refl

build-root_hash_example :
    Returns (λ t. group_root_hash (init two_leaves) ≡ some (reconstruct t)) (build second)
build-root_hash_example =
    build-root_hash two_leaves second two_leaves-Complete
      (adds 8 HashTree.leaf start leaf_hash_lem second_run)

-- A builder with leaves under the paths `a` and `b, a`.
abbrev one_entry : GroupBuilder Bytes
one_entry = record {
  root = directory (child (97 ∷ []) (GroupBuilderNode.leaf 7) no_children);
  values = (7, 5 ∷ []) ∷ [];
}

abbrev two_entries : GroupBuilder Bytes
two_entries = record {
  root = directory (
      child (97 ∷ []) (GroupBuilderNode.leaf 7) (
        child (98 ∷ []) (directory (child (97 ∷ []) (GroupBuilderNode.leaf 8) no_children))
          no_children));
  values = (8, 6 ∷ []) ∷ (7, 5 ∷ []) ∷ [];
}

first_insert : insert ((97 ∷ []) ∷ []) 7 (5 ∷ []) new ≡ some one_entry
unfolding insert insert_node child_at set_child leaf_entry dir_entry new find put cmp_bytes
    lexicographic
first_insert = refl

second_insert : insert ((98 ∷ []) ∷ (97 ∷ []) ∷ []) 8 (6 ∷ []) one_entry ≡ some two_entries
unfolding insert insert_node child_at set_child leaf_entry dir_entry find put cmp_bytes
    lexicographic
second_insert = refl

-- A path that goes on from a leaf panics, as does a type that is in the group.
through_a_leaf : insert ((97 ∷ []) ∷ (97 ∷ []) ∷ []) 8 (6 ∷ []) one_entry ≡ none
unfolding insert insert_node child_at set_child leaf_entry dir_entry find put cmp_bytes
    lexicographic
through_a_leaf = refl

-- A group without leaves panics.
empty_build : build_group (new {V = Bytes}) ≡ none
unfolding build_group build_node new balance
empty_build = refl

build_group-LeafUnder_example :
    Returns
      (λ group.
        LeafUnder ((98 ∷ []) ∷ (97 ∷ []) ∷ []) 8 group.root × (find 8 group.values ≡ some (6 ∷ [])))
      (build_group two_entries)
build_group-LeafUnder_example =
    build_group-LeafUnder ((98 ∷ []) ∷ (97 ∷ []) ∷ []) 8 (6 ∷ []) two_entries (
      by_last one_entry (made_insert ((97 ∷ []) ∷ []) 7 (5 ∷ []) new made_new first_insert)
        second_insert)
