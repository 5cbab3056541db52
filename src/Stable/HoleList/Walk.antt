-- ===== src/Stable/HoleList/Walk.antt =====
-- `HoleIterator` of hole.rs comes to an end, and goes through all the holes of its list.
use ic_kit.Base.{
  ℕ, zero, suc, ◌+◌, ◌≤◌, ◌<◌, ◌≡◌, ◌≢◌, refl, sym, ap, ◌∙◌, subst, Option, none, some, List, [],
  ◌∷◌, arith, length, Option-cases, ◌↔◌, inl, inr, Returns, Returns-bind,
}
use ic_kit.Dict.{find}
use ic_kit.Stable.Hole.Laws.{In}
use ic_kit.Stable.HoleList.{Hole, HoleList}
use ic_kit.Stable.HoleList.Search.{collect}
use ic_kit.Stable.HoleList.Index.{get_log2_index}
use ic_kit.Stable.HoleList.Links.{index_of}
use ic_kit.Stable.HoleList.Invariant.{IsHoleList, size_at}
use ic_kit.Stable.HoleList.Collect.{
  young_count, young_count-le, young_count-lt, young_count-pos, collect-some, collect-none,
  collect-zero, collect-dangling, In-head, In-next,
}

module _ {limit : ℕ} {list : HoleList} (valid : IsHoleList limit list) where
  open valid use {linked, age, top}

  collect-Returns :
      (fuel a : ℕ)
      → find a list.map ≢ none
      → young_count age (age a) list.map ≤ fuel
      → Returns (λ _. Unit {0}) (collect (suc fuel) (some a) list.map)
  collect-Returns zero a f h = absurd (omega (arith, young_count-pos age a list.map f))
  collect-Returns (suc fuel) a f h = elim (Option-cases (find a list.map)) [
    | inl e ↦ absurd (f e)
    | inr (hole, e) ↦ elim (Option-cases hole.next) [
      | inl n ↦ rw (collect-some (suc fuel) a hole list.map e, n, collect-none fuel list.map) tt
      | inr (b, n) ↦
          let next = linked.forward a b hole e n in
          let there : find b list.map ≢ none = λ g. ground arith in
          let less = young_count-lt age (age b) a list.map f next.2 in
          rw (collect-some (suc fuel) a hole list.map e, n)
            (Returns-bind (λ _. Unit {0}) _ (collect (suc fuel) (some b) list.map) _
              (collect-Returns fuel b there (omega arith)) (λ _ _. tt))
    ]
  ]

  -- What is gone through is in the list.
  collect_sound :
      (fuel : ℕ) (head : Option ℕ) (i : ℕ) (l : List (ℕ × ℕ))
      → collect fuel head list.map ≡ some l
      → ((a : ℕ) → head ≡ some a → index_of (find a list.map) ≡ some i)
      → (a n : ℕ) → In a n l
      → (size_at list a ≡ some n) × (get_log2_index n ≡ i)
  collect_sound zero head i l c h a n k = absurd (ground (arith, collect-zero head list.map))
  collect_sound (suc fuel) none i l c h a n k =
      let same : l ≡ [] = ground (arith, collect-none fuel list.map) in
      absurd (subst (In a n) same k)
  collect_sound (suc fuel) (some b) i l c h a n k = elim (Option-cases (find b list.map)) [
    | inl g ↦ absurd (ground (arith, collect-dangling fuel b list.map g))
    | inr (first, g) ↦ elim (Option-cases (collect fuel first.next list.map)) [
      | inl d ↦ absurd (ground (arith, collect-some fuel b first list.map g))
      | inr (rest, d) ↦
          let same : l ≡ (b, first.size) ∷ rest =
            ground (arith, collect-some fuel b first list.map g) in
          let level = h b refl in
          elim (subst (In a n) same k) [
            | inl (is, size) ↦ (ground arith, ground arith)
            | inr later ↦
                collect_sound fuel first.next i rest d
                  (λ x e. ground (arith, linked.forward b x first)) a n later
          ]
    ]
  ]

  -- Every hole of the list is gone through.
  collect_complete :
      (budget fuel a i : ℕ) (hole : Hole) (l : List (ℕ × ℕ))
      → collect fuel (list.roots i) list.map ≡ some l
      → find a list.map ≡ some hole
      → get_log2_index hole.size ≡ i
      → top < age a + budget
      → In a hole.size l
  collect_complete zero fuel a i hole l c e k h =
      absurd (let y = linked.young a hole e in omega arith)
  collect_complete (suc budget) fuel a i hole l c e k h = elim (Option-cases hole.prev) [
    | inl n ↦
        let front : list.roots i ≡ some a = ground (arith, linked.first a hole) in
        In-head list.map fuel a hole l e (ap (λ r. collect fuel r list.map) (sym front) ∙ c)
    | inr (p, n) ↦
        let back = linked.backward a p hole e n in
        elim (Option-cases (find p list.map)) [
          | inl f ↦ absurd (ground arith)
          | inr (before, f) ↦
              In-next list.map fuel (list.roots i) p a before.size before hole l c
                (collect_complete budget fuel p i before l c f (ground arith) (omega arith)) f
                (ground arith) e
        ]
  ]

  collect-root :
      (i : ℕ) → Returns (λ _. Unit {0}) (collect (suc (length list.map)) (list.roots i) list.map)
  collect-root i = elim (Option-cases (list.roots i)) [
    | inl e ↦ rw (e, collect-none (length list.map) list.map) tt
    | inr (a, e) ↦ rw e (
        collect-Returns (length list.map) a (λ f. let r = linked.from_root i a e in ground arith)
          (young_count-le age (age a) list.map))
  ]

  -- Exactly the holes of list `i`.
  abbrev pub Level : ℕ → List (ℕ × ℕ) → Type 0
  Level i l = (a n : ℕ) → In a n l ↔ ((size_at list a ≡ some n) × (get_log2_index n ≡ i))

  -- In lists that are well formed the iterator of each list comes to an end, and goes through exactly the holes
  -- whose size has that list's index.
  pub collect-Level :
      (i : ℕ) → Returns (Level i) (collect (suc (length list.map)) (list.roots i) list.map)
  collect-Level i = elim (Option-cases (collect (suc (length list.map)) (list.roots i) list.map)) [
    | inl c ↦ absurd (subst (Returns (λ _. Unit {0})) c (collect-root i))
    | inr (l, c) ↦ rw c λ a n. (
      collect_sound (suc (length list.map)) (list.roots i) i l c (λ b e. (linked.from_root i b e).1)
          a n,
      λ (e, k). elim (Option-cases (find a list.map)) [
        | inl f ↦ absurd (ground arith)
        | inr (hole, f) ↦
            let size : hole.size ≡ n = ground arith in
            subst (λ s. In a s l) size
              (collect_complete (suc top) (suc (length list.map)) a i hole l c f
                (ap get_log2_index size ∙ k) (omega arith))
      ],
    )
  ]
