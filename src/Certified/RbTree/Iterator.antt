-- ===== src/Certified/RbTree/Iterator.antt =====
-- ic-kit-certified/src/rbtree/iterator.rs: the iterator, with its stack of nodes still to be visited.
pub mod Laws
use ic_kit.Base.{ℕ, ◌-◌, List, [], ◌∷◌, Option, none, some}
use ic_kit.Certified.RbTree.Node.{Node, null, node}
use ic_kit.Certified.RbTree.Insert.{RbTree}

pub record RbTreeIterator (K V : Type 0) : Type 0 where
  pub next_visit : Node K V
  pub stack : List (Node K V)
  pub remaining_elements : ℕ

module _ {K V : Type 0} where
  unfoldable pub start : RbTree K V → RbTreeIterator K V
  start t = record { next_visit = t.root; stack = []; remaining_elements = t.len }

  -- The `while` loop of `next`: the stack once the way left has ended at a null pointer.
  unfoldable pub push_lefts : Node K V → List (Node K V) → List (Node K V)
  push_lefts null stack = stack
  push_lefts (node k v l r c h) stack = push_lefts l (node k v l r c h ∷ stack)

  -- After the loop; only nodes that are not null are ever pushed.
  unfoldable pub pop_next : List (Node K V) → ℕ → Option ((K × V) × RbTreeIterator K V)
  pop_next [] remaining = none
  pop_next (null ∷ stack) remaining = none
  pop_next (node k v l r c h ∷ stack) remaining =
      some ((k, v), record { next_visit = r; stack = stack; remaining_elements = remaining - 1 })

  -- `Iterator::next`, and the iterator that it leaves.
  unfoldable pub next : RbTreeIterator K V → Option ((K × V) × RbTreeIterator K V)
  unfolding push_lefts pop_next
  next i = pop_next (push_lefts i.next_visit i.stack) i.remaining_elements

  unfoldable pub size_hint : RbTreeIterator K V → ℕ × Option ℕ
  size_hint i = (i.remaining_elements, some i.remaining_elements)
