-- ===== src/Certified/Group.antt =====
-- ic-kit-certified/src/collections/group.rs: a tree of labels whose leaves are data of different types, each
-- found by the number that stands for its `TypeId`. `V` is `dyn GroupLeaf`, any of these types, with what it
-- implements of `AsHashTree`. `none` is a panic of `unwrap`.
pub mod Leaves
pub mod Builder
mod Directories
pub mod Shown
mod Buildable
pub mod Filled
pub mod Built
pub mod Paths
pub mod Sound
use ic_kit.Base.{ℕ, suc, Option, none, some, ◌>>=◌, List, [], ◌∷◌, ◌++◌, true, false}
use ic_kit.Dict.{Dict, find, put, erase, member, add}
use ic_kit.Certified.HashTree
use ic_kit.Certified.HashTree.{Bytes, Hash, Sha256, HashTree, fork_hash, labeled_hash}
use ic_kit.Certified.Label.{AsHashTree}

-- A node is its id and what it is.
pub data GroupNode : Type 0 where
  fork : ℕ → GroupNode → GroupNode → GroupNode
  labeled : ℕ → Bytes → GroupNode → GroupNode
  leaf : ℕ → ℕ → GroupNode

pub record Group (V : Type 0) : Type 0 where
  pub root : GroupNode
  pub values : Dict V
  pub dependencies : Dict (List ℕ)

pub record Ray (V : Type 0) : Type 0 where
  pub group : Group V
  pub to_visit : List ℕ
  pub leaves : Dict HashTree

-- `GroupNode::visit_node`: the node with its ids, the dependencies and the next id.
unfoldable pub visit_node : GroupNode → ℕ → Dict (List ℕ) → List ℕ → GroupNode × Dict (List ℕ) × ℕ
visit_node (fork _ left right) id dependencies path =
    let inside = path ++ id ∷ [] in
    let (left', deps, next_id) = visit_node left (suc id) dependencies inside in
    let (right', deps', next_id') = visit_node right next_id deps inside in
    (fork id left' right', deps', next_id')
visit_node (leaf _ tid) id dependencies path =
    (leaf id tid, put tid (path ++ id ∷ []) dependencies, suc id)
visit_node (labeled _ label node) id dependencies path =
    let (node', deps, next_id) = visit_node node (suc id) dependencies (path ++ id ∷ []) in
    (labeled id label node', deps, next_id)

-- The loop that adds the ancestors.
unfoldable pub visit_all : List ℕ → List ℕ → List ℕ
unfolding add
visit_all [] to_visit = to_visit
visit_all (dep ∷ deps) to_visit = visit_all deps (add dep to_visit)

module _ {V : Type 0} where
  -- `Group::init`
  unfoldable pub init : Group V → Group V
  unfolding visit_node
  init group =
      let (root, dependencies, _) = visit_node group.root 0 [] [] in
      record group { root = root; dependencies = dependencies }

  -- `Group::get`, of the type with the number `tid`.
  unfoldable pub get : ℕ → Group V → Option V
  get tid group = find tid group.values

  -- `Group::witness`, which is `Ray::new`.
  unfoldable pub new_ray : Group V → Ray V
  new_ray group = record { group = group; to_visit = []; leaves = [] }

  -- `Ray::partial`
  unfoldable pub partial : ℕ → (V → HashTree) → Ray V → Option (Ray V)
  unfolding visit_all
  partial tid f ray = do
    deps ← find tid ray.group.dependencies
    value ← find tid ray.group.values
    some (record ray {
      to_visit = visit_all deps ray.to_visit;
      leaves = put tid (f value) ray.leaves;
    })

module _ ⦃s : Sha256⦄ {V : Type 0} ⦃tree : AsHashTree V⦄ where
  -- `Ray::full`
  unfoldable pub full : ℕ → Ray V → Option (Ray V)
  unfolding partial
  full tid ray = partial tid (tree.as_hash_tree) ray

  -- `GroupNode::root_hash`
  unfoldable pub root_hash : GroupNode → Group V → Option Hash
  root_hash (fork _ left right) group = do
    l ← root_hash left group
    r ← root_hash right group
    some (fork_hash l r)
  root_hash (labeled _ label node) group = do
    hash ← root_hash node group
    some (labeled_hash label hash)
  root_hash (leaf _ tid) group = do value ← find tid group.values; some (tree.root_hash value)

  -- `GroupNode::witness_all`
  unfoldable pub witness_all : GroupNode → Group V → Option HashTree
  witness_all (fork _ left right) group = do
    l_tree ← witness_all left group
    r_tree ← witness_all right group
    some (HashTree.fork l_tree r_tree)
  witness_all (labeled _ label node) group = do
    t ← witness_all node group
    some (HashTree.labeled label t)
  witness_all (leaf _ tid) group = do value ← find tid group.values; some (tree.as_hash_tree value)

  -- What `GroupNode::witness` does of a node that is not visited.
  unfoldable pub prune : GroupNode → Ray V → Option (HashTree × Ray V)
  unfolding root_hash
  prune node ray = do hash ← root_hash node ray.group; some (HashTree.pruned hash, ray)

  -- `GroupNode::witness`, and the ray afterwards.
  unfoldable pub witness : GroupNode → Ray V → Option (HashTree × Ray V)
  unfolding prune
  witness (fork id left right) ray = elim (member id ray.to_visit) [
    | false ↦ prune (fork id left right) ray
    | true ↦ do
      (l_tree, ray) ← witness left ray
      (r_tree, ray) ← witness right ray
      some (HashTree.fork l_tree r_tree, ray)
  ]
  witness (labeled id label node) ray = elim (member id ray.to_visit) [
    | false ↦ prune (labeled id label node) ray
    | true ↦ do (t, ray) ← witness node ray; some (HashTree.labeled label t, ray)
  ]
  witness (leaf id tid) ray = elim (member id ray.to_visit) [
    | false ↦ prune (leaf id tid) ray
    | true ↦ do t ← find tid ray.leaves; some (t, record ray { leaves = erase tid ray.leaves })
  ]

  -- `Ray::build`
  unfoldable pub build : Ray V → Option HashTree
  unfolding witness
  build ray = do (t, _) ← witness ray.group.root ray; some t

  -- `AsHashTree for Group`
  unfoldable pub group_root_hash : Group V → Option Hash
  unfolding root_hash
  group_root_hash group = root_hash group.root group

  unfoldable pub group_tree : Group V → Option HashTree
  unfolding witness_all
  group_tree group = witness_all group.root group
