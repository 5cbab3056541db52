-- ===== src/Stable/HoleList/Links.antt =====
-- The doubly linked lists of hole.rs: what holds of their pointers, and that linking a hole in front and
-- removing one keep it. The boxes are seen as a function from addresses here.
use ic_kit.Base.{
  ℕ, suc, ◌<◌, ◌≡◌, Bool, false, Option, none, some, ◌==◌, if◌then◌else◌, arith, Option-cases, inl,
  inr,
}
use ic_kit.Stable.HoleList.{Hole, new_hole}
use ic_kit.Stable.HoleList.Index.{get_log2_index}

abbrev pub Boxes : Type 0
Boxes = ℕ → Option Hole

abbrev pub prev_of : Option Hole → Option (Option ℕ)
prev_of none = none
prev_of (some hole) = some hole.prev

abbrev pub next_of : Option Hole → Option (Option ℕ)
next_of none = none
next_of (some hole) = some hole.next

abbrev pub index_of : Option Hole → Option ℕ
index_of none = none
index_of (some hole) = some (get_log2_index hole.size)

-- The pointers of the boxes agree with each other and with the roots, list by list; `age`, of which `top` is
-- a bound, falls along every list, so that no list runs in a circle.
pub record Linked (boxes : Boxes) (roots : ℕ → Option ℕ) (age : ℕ → ℕ) (top : ℕ) : Type 0 where
  pub forward :
      (a b : ℕ) (hole : Hole)
      → boxes a ≡ some hole
      → hole.next ≡ some b
      → (prev_of (boxes b) ≡ some (some a))
        × (index_of (boxes b) ≡ some (get_log2_index hole.size))
        × (age b < age a)
  pub backward :
      (a b : ℕ) (hole : Hole)
      → boxes a ≡ some hole
      → hole.prev ≡ some b
      → (next_of (boxes b) ≡ some (some a))
        × (index_of (boxes b) ≡ some (get_log2_index hole.size))
        × (age a < age b)
  pub first :
      (a : ℕ) (hole : Hole)
      → boxes a ≡ some hole
      → hole.prev ≡ none
      → roots (get_log2_index hole.size) ≡ some a
  pub from_root :
      (i a : ℕ) → roots i ≡ some a → (prev_of (boxes a) ≡ some none) × (index_of (boxes a) ≡ some i)
  pub young : (a : ℕ) (hole : Hole) → boxes a ≡ some hole → age a < top

-- Whether a pointer points to the box.
abbrev pub points : Option ℕ → ℕ → Bool
points none a = false
points (some b) a = b == a

abbrev pub alter : (Hole → Hole) → Option Hole → Option Hole
alter f none = none
alter f (some hole) = some (f hole)

-- A box at `x` when the box `hole` has left its list.
abbrev pub bypass : Hole → ℕ → Hole → Hole
bypass hole x other = record {
  size = other.size;
  prev = if points hole.next x then hole.prev else other.prev;
  next = if points hole.prev x then hole.next else other.next;
}

abbrev pub put_root : ℕ → Option ℕ → (ℕ → Option ℕ) → ℕ → Option ℕ
put_root i r roots j = if i == j then r else roots j

module _ {boxes boxes' : Boxes} {roots roots' : ℕ → Option ℕ} {age : ℕ → ℕ} {top : ℕ}
    (linked : Linked boxes roots age top) (addr : ℕ) (hole : Hole) (here : boxes addr ≡ some hole)
    (change : (x : ℕ) → boxes' x ≡ (if addr == x then none else alter (bypass hole x) (boxes x)))
    (roots_change : (i : ℕ)
      → roots' i ≡ (elim hole.prev [
        | none ↦ if get_log2_index hole.size == i then hole.next else roots i
        | some _ ↦ roots i
      ])) where
  -- A hole that leaves its list.
  pub remove-Linked : Linked boxes' roots' age top
  remove-Linked = record {
    forward = λ a b g e n. elim (Option-cases (boxes a)) [
      | inl f ↦ absurd (ground (arith, change a))
      | inr (k, f) ↦ ground (
        arith,
        change a,
        change b,
        linked.forward a b k,
        linked.forward addr b hole,
        linked.backward addr a hole,
        linked.forward a addr k,
      )
    ];
    backward = λ a b g e n. elim (Option-cases (boxes a)) [
      | inl f ↦ absurd (ground (arith, change a))
      | inr (k, f) ↦ ground (
        arith,
        change a,
        change b,
        linked.backward a b k,
        linked.backward addr b hole,
        linked.forward addr a hole,
        linked.backward a addr k,
      )
    ];
    first = λ a g e n. elim (Option-cases (boxes a)) [
      | inl f ↦ absurd (ground (arith, change a))
      | inr (k, f) ↦ ground (
        arith,
        change a,
        roots_change (get_log2_index g.size),
        linked.first a k,
        linked.first addr hole,
        linked.forward addr a hole,
      )
    ];
    from_root = λ i a e.
        ground (arith, change a, roots_change i, linked.from_root i a, linked.forward addr a hole);
    young = λ a g e. elim (Option-cases (boxes a)) [
      | inl f ↦ absurd (ground (arith, change a))
      | inr (k, f) ↦ ground (arith, change a, linked.young a k)
    ];
  }

module _ {boxes boxes' : Boxes} {roots roots' : ℕ → Option ℕ} {age : ℕ → ℕ} {top : ℕ}
    (linked : Linked boxes roots age top) (addr size : ℕ) (free : boxes addr ≡ none)
    (change : (x : ℕ)
      → boxes' x ≡ (
          if addr == x
          then some (new_hole size (roots (get_log2_index size)))
          else alter
              (λ other. record {
                size = other.size;
                prev = if points (roots (get_log2_index size)) x then some addr else other.prev;
                next = other.next;
              })
              (boxes x)))
    (roots_change : (i : ℕ)
      → roots' i ≡ (if get_log2_index size == i then some addr else roots i)) where
  -- A hole that comes to the front of its list.
  pub link-Linked : Linked boxes' roots' (λ x. if addr == x then top else age x) (suc top)
  unfolding new_hole
  link-Linked = record {
    forward = λ a b g e n. elim (Option-cases (boxes a)) [
      | inl f ↦ elim (Option-cases (boxes b)) [
        | inl d ↦ ground (arith, change a, change b, linked.from_root (get_log2_index size) b)
        | inr (m, d) ↦
            ground (
              arith,
              change a,
              change b,
              linked.from_root (get_log2_index size) b,
              linked.young b m,
            )
      ]
      | inr (k, f) ↦ ground (
        arith,
        change a,
        change b,
        linked.forward a b k,
        linked.from_root (get_log2_index size) b,
      )
    ];
    backward = λ a b g e n. elim (Option-cases (boxes a)) [
      | inl f ↦ absurd (ground (arith, change a))
      | inr (k, f) ↦ ground (
        arith,
        change a,
        change b,
        linked.backward a b k,
        linked.from_root (get_log2_index size) a,
        linked.young a k,
      )
    ];
    first = λ a g e n. elim (Option-cases (boxes a)) [
      | inl f ↦ ground (arith, change a, roots_change (get_log2_index g.size))
      | inr (k, f) ↦ ground (
        arith,
        change a,
        roots_change (get_log2_index g.size),
        linked.first a k,
        linked.from_root (get_log2_index size) a,
      )
    ];
    from_root = λ i a e. ground (
      arith,
      change a,
      roots_change i,
      linked.from_root i a,
      linked.from_root (get_log2_index size) a,
    );
    young = λ a g e. elim (Option-cases (boxes a)) [
      | inl f ↦ ground (arith, change a)
      | inr (k, f) ↦ ground (arith, change a, linked.young a k)
    ];
  }
