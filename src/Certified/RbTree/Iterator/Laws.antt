-- ===== src/Certified/RbTree/Iterator/Laws.antt =====
-- The iterator of rbtree/iterator.rs: it yields the entries in order, and counts what is left.
use ic_kit.Base.{
  ℕ, ◌-◌, ◌≡◌, refl, sym, ◌∙◌, false, List, [], ◌∷◌, ◌++◌, append_assoc, append-nil, none, some,
  arith, length, All,
}
use ic_kit.Certified.RbTree.Node.{Node, null, node, is_null}
use ic_kit.Certified.RbTree.Keeps.{entries}
use ic_kit.Certified.RbTree.Insert.{RbTree}
use ic_kit.Certified.RbTree.Iterator.{RbTreeIterator, start, push_lefts, pop_next, next, size_hint}

module _ {K V : Type 0} where
  -- What the nodes of a stack have still to yield: each its entry and its right subtree.
  abbrev waiting : List (Node K V) → List (K × V)
  waiting [] = []
  waiting (null ∷ stack) = waiting stack
  waiting (node k v l r c h ∷ stack) = (k, v) ∷ entries r ++ waiting stack

  abbrev Solid : List (Node K V) → Type 0
  Solid = All (λ n. is_null n ≡ false)

  push_lefts-waiting :
      (n : Node K V) (stack : List (Node K V))
      → waiting (push_lefts n stack) ≡ entries n ++ waiting stack
  unfolding push_lefts
  push_lefts-waiting null stack = refl
  push_lefts-waiting (node k v l r c h) stack =
      push_lefts-waiting l (node k v l r c h ∷ stack) ∙ sym (append_assoc (entries l) _ _)

  push_lefts-Solid :
      (n : Node K V) (stack : List (Node K V)) → Solid stack → Solid (push_lefts n stack)
  unfolding push_lefts is_null
  push_lefts-Solid null stack s = s
  push_lefts-Solid (node k v l r c h) stack s =
      push_lefts-Solid l (node k v l r c h ∷ stack) (refl, s)

  -- `i` yields the entries of the list in order and then nothing, and before each call its `size_hint`
  -- is the number of those left.
  abbrev pub Yields : List (K × V) → RbTreeIterator K V → Type 0
  Yields [] i = (next i ≡ none) × (size_hint i ≡ (0, some 0))
  Yields (e ∷ m) i =
      (j : RbTreeIterator K V) × (next i ≡ some (e, j))
      × (size_hint i ≡ (length (e ∷ m), some (length (e ∷ m))))
      × Yields m j

  -- What is popped when `e` and then the entries of `m` are waiting.
  record Popped (e : K × V) (m : List (K × V)) (pushed : List (Node K V)) (count : ℕ) : Type 0 where
    after : Node K V
    stack : List (Node K V)
    popped :
        pop_next pushed count
        ≡ some (e, record { next_visit = after; stack = stack; remaining_elements = count - 1 })
    solid : Solid stack
    left_over : entries after ++ waiting stack ≡ m

  pop_next-Popped :
      (e : K × V) (m : List (K × V)) (pushed : List (Node K V)) (count : ℕ)
      → Solid pushed
      → waiting pushed ≡ e ∷ m
      → Popped e m pushed count
  unfolding pop_next is_null
  pop_next-Popped e m [] count s w = absurd (cc)
  pop_next-Popped e m (null ∷ stack) count s w = absurd (let bad = s.0 in cc)
  pop_next-Popped e m (node k v l r c h ∷ stack) count s w = record {
    after = r;
    stack = stack;
    popped = cc;
    solid = s.1;
    left_over = cc;
  }

  pop_next-none :
      (pushed : List (Node K V)) (count : ℕ)
      → Solid pushed
      → waiting pushed ≡ []
      → pop_next pushed count ≡ none
  unfolding pop_next is_null
  pop_next-none [] count s w = refl
  pop_next-none (null ∷ stack) count s w = let bad = s.0 in cc
  pop_next-none (node k v l r c h ∷ stack) count s w = cc

  iterating-Yields :
      (m : List (K × V)) (n : Node K V) (stack : List (Node K V)) (count : ℕ)
      → Solid stack
      → entries n ++ waiting stack ≡ m
      → count ≡ length m
      → Yields m (record { next_visit = n; stack = stack; remaining_elements = count })
  unfolding next size_hint
  iterating-Yields [] n stack count s w c = (
    pop_next-none (push_lefts n stack) count (push_lefts-Solid n stack s)
        (push_lefts-waiting n stack ∙ w),
    rw c,
  )
  iterating-Yields (e ∷ m) n stack count s w c =
      let p =
        pop_next-Popped e m (push_lefts n stack) count (push_lefts-Solid n stack s)
          (push_lefts-waiting n stack ∙ w) in
      (
        record { next_visit = p.after; stack = p.stack; remaining_elements = count - 1 },
        p.popped,
        rw c,
        iterating-Yields m p.after p.stack (count - 1) p.solid p.left_over (omega arith),
      )

  -- The iterator of a tree whose `len` counts its entries yields them in order, each once, and then
  -- nothing; before each call `size_hint` is the number of entries left.
  pub start-Yields :
      (t : RbTree K V) → t.len ≡ length (entries t.root) → Yields (entries t.root) (start t)
  unfolding start
  start-Yields t c =
      iterating-Yields (entries t.root) t.root [] t.len tt (append-nil (entries t.root)) c
