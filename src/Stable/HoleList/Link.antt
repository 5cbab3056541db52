-- ===== src/Stable/HoleList/Link.antt =====
-- The insertion of `raw_insert` keeps the lists of holes well formed.
use ic_kit.Base.{
  ℕ, suc, ◌+◌, ◌≤◌, ◌<◌, ◌≡◌, refl, true, Option, none, some, ltb, ◌==◌, if◌then◌else◌, arith,
  Returns, Returns-bind,
}
use ic_kit.Dict.{find, put, find-put}
use ic_kit.Stable.HoleList.{HoleList, link_hole, new_hole, root, set_root}
use ic_kit.Stable.HoleList.Index.{get_log2_index, get_log2_index-least}
use ic_kit.Stable.HoleList.Links.{points, alter, link-Linked}
use ic_kit.Stable.HoleList.Pointers.{set_prev-alter, insert_box_lem}
use ic_kit.Stable.HoleList.Boundaries.{link-Bounded}
use ic_kit.Stable.HoleList.Invariant.{Apart, IsHoleList, size_of, size_at}

-- A block that is no hole, nor overlaps with one, nor touches one.
pub record Fresh (limit addr size : ℕ) (sizes : ℕ → Option ℕ) : Type 0 where
  pub new : sizes addr ≡ none
  pub sized : (16 ≤ size) × (addr + size ≤ limit)
  pub before : (a n : ℕ) → sizes a ≡ some n → a < addr → a + n < addr
  pub behind : (a n : ℕ) → sizes a ≡ some n → addr < a → addr + size < a

Apart-put :
    (limit addr size : ℕ) (sizes sizes' : ℕ → Option ℕ)
    → ((x : ℕ) → sizes' x ≡ (if addr == x then some size else sizes x))
    → Apart limit sizes
    → Fresh limit addr size sizes
    → Apart limit sizes'
Apart-put limit addr size sizes sizes' change apart fresh = record {
  sized = λ a n e. ground (arith, change a, apart.sized a n, fresh.sized);
  gap = λ a b n m e f l.
      ground (arith, change a, change b, apart.gap a b n m, fresh.before a n, fresh.behind b m);
}

-- The holes and one more.
abbrev pub Added : ℕ → ℕ → ℕ → HoleList → HoleList → Type 0
Added limit addr size list after =
    IsHoleList limit after
    × ((x : ℕ) → size_at after x ≡ (if addr == x then some size else size_at list x))

module _ {limit : ℕ} {list : HoleList} (valid : IsHoleList limit list) (addr size : ℕ)
    (fresh : Fresh limit addr size (size_at list)) where
  open valid use {linked, apart, bounded}

  pub inside : get_log2_index size < 36
  inside =
      let s = fresh.sized in
      let l = valid.limit_le in (get_log2_index-least size s.0 (omega arith)).2.1 (omega arith)

  pub link_hole-Added : Returns (Added limit addr size list) (link_hole addr size list)
  unfolding link_hole root set_root
  link_hole-Added =
      let index = get_log2_index size in
      let checked : ltb index 36 ≡ true = let i = inside in ground arith in
      let free : find addr list.map ≡ none = let n = fresh.new in ground arith in
      rw checked (
        Returns-bind
          (λ after.
            (x : ℕ)
            → find x after
              ≡ alter
                  (λ o. record {
                    size = o.size;
                    prev = if points (list.roots index) x then some addr else o.prev;
                    next = o.next;
                  })
                  (find x list.map))
          _ _ _
          (set_prev-alter (list.roots index) (some addr) list.map
            λ a e f. ground (arith, linked.from_root index a e))
          λ mid e.
            let absent : find addr mid ≡ none = ground (arith, e addr) in
            rw (insert_box_lem addr (new_hole size (list.roots index)) mid absent) (
              let boxes = λ (x : ℕ). find-put x addr (new_hole size (list.roots index)) mid in
              let sizes : (x : ℕ)
                  → size_of (find x (put addr (new_hole size (list.roots index)) mid))
                    ≡ (if addr == x then some size else size_at list x) =
                λ x. unfold new_hole in ground (arith, boxes x, e x) in
              (
                record {
                  age = λ x. if addr == x then valid.top else valid.age x;
                  top = suc valid.top;
                  linked =
                      link-Linked linked addr size free (λ x. ground (arith, boxes x, e x))
                        (λ i. refl);
                  apart = Apart-put limit addr size (size_at list) _ sizes apart fresh;
                  bounded =
                      link-Bounded index addr list.roots_right_boundary list.roots_left_boundary
                        list.roots inside bounded.0 bounded.1;
                  limit_le = valid.limit_le;
                },
                sizes,
              )))
