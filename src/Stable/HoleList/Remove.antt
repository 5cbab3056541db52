-- ===== src/Stable/HoleList/Remove.antt =====
-- `remove_hole` and the insertion of `raw_insert` keep the lists of holes well formed.
use ic_kit.Base.{
  ℕ, ◌≡◌, refl, ap, true, false, Option, none, some, ◌==◌, if◌then◌else◌, arith, Option-cases, inl,
  inr, Returns, Returns-imp, Returns-bind,
}
use ic_kit.Dict.{find, erase, find-erase}
use ic_kit.Stable.HoleList.{Hole, HoleList, remove_hole, remove_root, is_root}
use ic_kit.Stable.HoleList.Index.{get_log2_index}
use ic_kit.Stable.HoleList.Links.{alter, bypass, put_root, remove-Linked}
use ic_kit.Stable.HoleList.Pointers.{Valid, remove_from_linked_list-bypass}
use ic_kit.Stable.HoleList.Boundaries.{Bounded, remove_root-Bounded}
use ic_kit.Stable.HoleList.Invariant.{Apart, IsHoleList, size_of, size_at, index-inside}

Apart-erase :
    (limit addr : ℕ) (sizes sizes' : ℕ → Option ℕ)
    → ((x : ℕ) → sizes' x ≡ (if addr == x then none else sizes x))
    → Apart limit sizes
    → Apart limit sizes'
Apart-erase limit addr sizes sizes' change apart = record {
  sized = λ a n e. ground (arith, change a, apart.sized a n);
  gap = λ a b n m e f l. ground (arith, change a, change b, apart.gap a b n m);
}

-- The holes but the one that is removed.
abbrev pub Removed : ℕ → ℕ → HoleList → HoleList → Type 0
Removed limit addr list after =
    IsHoleList limit after
    × ((x : ℕ) → size_at after x ≡ (if addr == x then none else size_at list x))

is_root_lem :
    (hole : Hole)
    → (hole.prev ≡ none → is_root hole ≡ true)
      × ((p : ℕ) → hole.prev ≡ some p → is_root hole ≡ false)
unfolding is_root
is_root_lem hole = (λ e. ground arith, λ p e. ground arith)

module _ {limit : ℕ} {list : HoleList} (valid : IsHoleList limit list) (addr : ℕ) (hole : Hole)
    (here : find addr list.map ≡ some hole) where
  open valid use {linked, apart, bounded}

  before-Valid : Valid hole.prev (erase addr list.map)
  before-Valid p e f =
      ground (arith, find-erase p addr list.map, linked.backward addr p hole here e)

  behind-Valid : Valid hole.next (erase addr list.map)
  behind-Valid p e f = ground (arith, find-erase p addr list.map, linked.forward addr p hole here e)

  -- The roots and the boundaries after the hole's own part.
  abbrev Unrooted : HoleList → Type 0
  Unrooted after =
      Bounded after
      × (after.map ≡ erase addr list.map)
      × ((i : ℕ)
          → after.roots i ≡ (elim hole.prev [
            | none ↦ if get_log2_index hole.size == i then hole.next else list.roots i
            | some _ ↦ list.roots i
          ]))

  unroot : Returns Unrooted (
      if is_root hole
      then remove_root hole (record list { map = erase addr list.map })
      else some (record list { map = erase addr list.map }))
  unroot = elim (Option-cases hole.prev) [
    | inl e ↦ rw ((is_root_lem hole).0 e) (
        Returns-imp
          (λ after.
            Bounded after
            × (after.map ≡ erase addr list.map)
            × (after.roots ≡ put_root (get_log2_index hole.size) hole.next list.roots))
          Unrooted _
          (remove_root-Bounded hole (record list { map = erase addr list.map })
            (index-inside valid addr hole.size (ap size_of here))
            (let f = linked.first addr hole here e in ground arith) bounded)
          λ after (b, m, r). (b, m, λ i. ground (arith, ap (λ (f : ℕ → Option ℕ). f i) r)))
    | inr (p, e) ↦ rw ((is_root_lem hole).1 p e) (bounded, refl, λ i. ground arith)
  ]

  pub remove_hole-Removed : Returns (Removed limit addr list) (remove_hole addr list)
  unfolding remove_hole
  remove_hole-Removed = rw here (
      Returns-bind Unrooted _ _ _ unroot λ mid (b, m, r).
        Returns-bind (λ after. (x : ℕ) → find x after ≡ alter (bypass hole x) (find x mid.map)) _ _
          _ (remove_from_linked_list-bypass hole mid.map (rw m before-Valid) (rw m behind-Valid))
          λ map e.
            let boxes : (x : ℕ)
                → find x map
                  ≡ (if addr == x then none else alter (bypass hole x) (find x list.map)) =
              λ x. ground (arith, e x, ap (find x) m, find-erase x addr list.map) in
            let sizes : (x : ℕ)
                → size_of (find x map) ≡ (if addr == x then none else size_at list x) =
              λ x. ground (arith, boxes x) in
            (
              record {
                age = valid.age;
                top = valid.top;
                linked = remove-Linked linked addr hole here boxes r;
                apart = Apart-erase limit addr (size_at list) _ sizes apart;
                bounded = b;
                limit_le = valid.limit_le;
              },
              sizes,
            ))
