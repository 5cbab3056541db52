-- ===== src/Stable/Hole/Laws.antt =====
-- The search of hole.rs finds a hole that fits, the right one of them.
use ic_kit.Base.{
  ℕ, ◌+◌, ◌-◌, ◌≤◌, ◌<◌, ◌≡◌, refl, ap, ◌∙◌, arith, Option, none, some, List, [], ◌∷◌, ltb, ◌==◌,
  Bool-cases, ◌⊎◌, inl, inr, Returns, if◌then◌else◌, subst,
}
use ic_kit.Stable.Hole.{
  Found, nothing_found, note_worst, note_best, scan, choose, find_hole, min_allocation_size,
}

abbrev pub In : ℕ → ℕ → List (ℕ × ℕ) → Type 0
In a b [] = ⊥
In a b ((addr, size) ∷ holes) = ((a ≡ addr) × (b ≡ size)) ⊎ In a b holes

-- What a scan of the holes makes of what was found before.
record Scanned (size : ℕ) (holes : List (ℕ × ℕ)) (f g : Found) : Type 0 where
  best_le : g.best_fit_delta ≤ f.best_fit_delta
  best_all : (a b : ℕ) → In a b holes → size ≤ b → size + g.best_fit_delta ≤ b
  best_from :
      ((g.best_fit_addr ≡ f.best_fit_addr) × (g.best_fit_delta ≡ f.best_fit_delta))
      ⊎ ((a : ℕ) × (g.best_fit_addr ≡ some a) × In a (size + g.best_fit_delta) holes)
  worst_ge : f.worst_fit_delta ≤ g.worst_fit_delta
  worst_all : (a b : ℕ) → In a b holes → b ≤ size + g.worst_fit_delta
  worst_from :
      ((g.worst_fit_addr ≡ f.worst_fit_addr) × (g.worst_fit_delta ≡ f.worst_fit_delta))
      ⊎ ((a : ℕ) × (g.worst_fit_addr ≡ some a) × In a (size + g.worst_fit_delta) holes)

-- One hole.
noted : ℕ → ℕ → ℕ → Found → Found
unfolding note_worst note_best
noted size addr b_size f =
    if ltb b_size size
    then f
    else note_best addr (b_size - size) (note_worst addr (b_size - size) f)

noted-Scanned :
    (size addr b_size : ℕ) (f : Found)
    → Scanned size ((addr, b_size) ∷ []) f (noted size addr b_size f)
unfolding noted note_worst note_best
noted-Scanned size addr b_size f = elim (Bool-cases (ltb b_size size)) [
  | inl e ↦ rw e (record {
    best_le = omega arith;
    best_all = λ a b h k. ground arith;
    best_from = inl (refl, refl);
    worst_ge = omega arith;
    worst_all = λ a b h. ground arith;
    worst_from = inl (refl, refl);
  })
  | inr e ↦ record {
    best_le = ground arith;
    best_all = λ a b h k. ground arith;
    best_from = elim (Bool-cases (ltb (b_size - size) f.best_fit_delta)) [
      | inl l ↦ inr (addr, ground arith, inl (refl, ground arith))
      | inr l ↦ inl (ground arith)
    ];
    worst_ge = ground arith;
    worst_all = λ a b h. ground arith;
    worst_from = elim (Bool-cases (ltb f.worst_fit_delta (b_size - size))) [
      | inl l ↦ inr (addr, ground arith, inl (refl, ground arith))
      | inr l ↦ inl (ground arith)
    ];
  }
]

Scanned-join :
    (size addr b_size : ℕ) (holes : List (ℕ × ℕ)) (f g h : Found)
    → Scanned size ((addr, b_size) ∷ []) f g
    → Scanned size holes g h
    → Scanned size ((addr, b_size) ∷ holes) f h
Scanned-join size addr b_size holes f g h p q = record {
  best_le = let a = p.best_le in let b = q.best_le in omega arith;
  best_all = λ a b i k. elim i [
    | inl e ↦ let u = p.best_all a b (inl e) k in let v = q.best_le in omega arith
    | inr j ↦ q.best_all a b j k
  ];
  best_from = elim q.best_from [
    | inl e ↦ elim p.best_from [
      | inl d ↦ inl (e.0 ∙ d.0, e.1 ∙ d.1)
      | inr (a, d, inl i) ↦ inr (a, e.0 ∙ d, inl (i.0, ap (λ n. size + n) e.1 ∙ i.1))
      | inr (a, d, inr i) ↦ absurd i
    ]
    | inr (a, d, i) ↦ inr (a, d, inr i)
  ];
  worst_ge = let a = p.worst_ge in let b = q.worst_ge in omega arith;
  worst_all = λ a b i. elim i [
    | inl e ↦ let u = p.worst_all a b (inl e) in let v = q.worst_ge in omega arith
    | inr j ↦ q.worst_all a b j
  ];
  worst_from = elim q.worst_from [
    | inl e ↦ elim p.worst_from [
      | inl d ↦ inl (e.0 ∙ d.0, e.1 ∙ d.1)
      | inr (a, d, inl i) ↦ inr (a, e.0 ∙ d, inl (i.0, ap (λ n. size + n) e.1 ∙ i.1))
      | inr (a, d, inr i) ↦ absurd i
    ]
    | inr (a, d, i) ↦ inr (a, d, inr i)
  ];
}

scan-Scanned :
    (size : ℕ) (holes : List (ℕ × ℕ)) (f : Found) → Scanned size holes f (scan size holes f)
unfolding scan noted
scan-Scanned size [] f = record {
  best_le = omega arith;
  best_all = λ a b h k. absurd h;
  best_from = inl (refl, refl);
  worst_ge = omega arith;
  worst_all = λ a b h. absurd h;
  worst_from = inl (refl, refl);
}
scan-Scanned size ((addr, b_size) ∷ holes) f =
    Scanned-join size addr b_size holes f (noted size addr b_size f)
      (scan size holes (noted size addr b_size f)) (noted-Scanned size addr b_size f)
      (scan-Scanned size holes (noted size addr b_size f))

-- Nothing is left over, or much is left over and no hole leaves more, or little is left over and no hole leaves
-- less, nor does any leave much.
abbrev pub IsRight : ℕ → List (ℕ × ℕ) → ℕ → Type 0
IsRight size holes delta =
    (delta ≡ 0)
    ⊎ ((min_allocation_size ≤ delta) × ((a b : ℕ) → In a b holes → b ≤ size + delta))
    ⊎ (((a b : ℕ) → In a b holes → b < size + min_allocation_size)
        × ((a b : ℕ) → In a b holes → size ≤ b → size + delta ≤ b))

abbrev pub Fits : ℕ → List (ℕ × ℕ) → Option (ℕ × ℕ) → Type 0
Fits size holes none = (a b : ℕ) → In a b holes → b < size
Fits size holes (some (addr, delta)) = In addr (size + delta) holes × IsRight size holes delta

choose-Fits :
    (size : ℕ) (holes : List (ℕ × ℕ)) (g : Found)
    → Scanned size holes nothing_found g
    → Returns (Fits size holes) (choose g)
unfolding choose nothing_found
choose-Fits size holes g s = elim (Bool-cases (g.best_fit_delta == 0)) [
  | inl z ↦ elim s.best_from [
    | inl e ↦ absurd (let d = e.1 in ground arith)
    | inr (a, e, i) ↦
        let zero_delta : g.best_fit_delta ≡ 0 = ground arith in
        rw (z, e) (subst (λ n. In a (size + n) holes) zero_delta i, inl refl)
  ]
  | inr z ↦ elim (Bool-cases (ltb g.worst_fit_delta min_allocation_size)) [
    | inl w ↦ elim s.best_from [
      | inl e ↦
          rw (z, w, e.0)
            λ a b i. elim (Bool-cases (ltb b size)) [
              | inl l ↦ ground arith
              | inr l ↦
                  let u = s.best_all a b i (ground arith) in
                  let v = s.worst_all a b i in let d = e.1 in absurd (ground arith)
            ]
      | inr (a, e, i) ↦
          rw (z, w, e)
            (i, inr (inr (λ x b j. let v = s.worst_all x b j in ground arith, s.best_all)))
    ]
    | inr w ↦ elim s.worst_from [
      | inl e ↦ absurd (let d = e.1 in ground arith)
      | inr (a, e, i) ↦ rw (z, w, e) (i, inr (inl (ground arith, s.worst_all)))
    ]
  ]
]

-- The search never panics. It returns nothing only where no hole of the list is large enough; else a hole of
-- the list and the bytes that are left over in it: none; or, where some hole leaves at least the smallest
-- allocation, as many as any; or else as few as any.
pub find_hole-Fits :
    (size : ℕ) (holes : List (ℕ × ℕ)) → Returns (Fits size holes) (find_hole size holes)
unfolding find_hole
find_hole-Fits size [] = λ a b i. absurd i
find_hole-Fits size (hole ∷ holes) =
    choose-Fits size (hole ∷ holes) (scan size (hole ∷ holes) nothing_found)
      (scan-Scanned size (hole ∷ holes) nothing_found)
