-- ===== src/Stable/HoleList/Collect.antt =====
-- The steps of `HoleIterator` of hole.rs, and how many there can be.
use ic_kit.Base.{
  ℕ, zero, suc, ◌+◌, ◌≤◌, ◌<◌, ◌≡◌, ◌≢◌, refl, sym, ap, ◌∙◌, subst, Option, none, some, List, [],
  ◌∷◌, leb, ◌==◌, arith, if◌then◌else◌, length, ◌>>=◌, Option-cases, Bool-cases, inl, inr,
}
use ic_kit.Dict.{Dict, find}
use ic_kit.Stable.Hole.Laws.{In}
use ic_kit.Stable.HoleList.{Hole}
use ic_kit.Stable.HoleList.Search.{collect}

-- How many entries have at most the age `r`.
unfoldable pub young_count : (ℕ → ℕ) → ℕ → Dict Hole → ℕ
young_count age r [] = 0
young_count age r ((a, hole) ∷ map) = (if leb (age a) r then 1 else 0) + young_count age r map

module _ (age : ℕ → ℕ) where
  pub young_count-le : (r : ℕ) (map : Dict Hole) → young_count age r map ≤ length map
  unfolding young_count
  young_count-le r [] = omega arith
  young_count-le r ((a, hole) ∷ map) = ground (arith, young_count-le r map)

  young_count_mono :
      (r s : ℕ) (map : Dict Hole) → r ≤ s → young_count age r map ≤ young_count age s map
  unfolding young_count
  young_count_mono r s [] h = omega arith
  young_count_mono r s ((a, hole) ∷ map) h = ground (arith, young_count_mono r s map h)

  pub young_count-lt :
      (r a : ℕ) (map : Dict Hole)
      → find a map ≢ none
      → r < age a
      → young_count age r map < young_count age (age a) map
  unfolding young_count find
  young_count-lt r a [] f h = absurd (f refl)
  young_count-lt r a ((b, hole) ∷ map) f h = elim (Bool-cases (b == a)) [
    | inl e ↦
        let same : b ≡ a = ground arith in
        let m = young_count_mono r (age a) map (omega arith) in let d = ap age same in ground arith
    | inr e ↦ let rest = young_count-lt r a map (λ g. f (rw e g)) h in ground arith
  ]

  pub young_count-pos :
      (a : ℕ) (map : Dict Hole) → find a map ≢ none → 0 < young_count age (age a) map
  unfolding young_count find
  young_count-pos a [] f = absurd (f refl)
  young_count-pos a ((b, hole) ∷ map) f = elim (Bool-cases (b == a)) [
    | inl e ↦ let same : b ≡ a = ground arith in let d = ap age same in ground arith
    | inr e ↦ let rest = young_count-pos a map (λ g. f (rw e g)) in ground arith
  ]

pub collect-some :
    (fuel a : ℕ) (hole : Hole) (map : Dict Hole)
    → find a map ≡ some hole
    → collect (suc fuel) (some a) map
      ≡ (do rest ← collect fuel hole.next map; some ((a, hole.size) ∷ rest))
unfolding collect
collect-some fuel a hole map e = rw e

pub collect-none : (fuel : ℕ) (map : Dict Hole) → collect (suc fuel) none map ≡ some []
unfolding collect
collect-none fuel map = refl

pub collect-zero : (head : Option ℕ) (map : Dict Hole) → collect zero head map ≡ none
unfolding collect
collect-zero head map = refl

pub collect-dangling :
    (fuel a : ℕ) (map : Dict Hole) → find a map ≡ none → collect (suc fuel) (some a) map ≡ none
unfolding collect
collect-dangling fuel a map e = rw e

-- What is gone through next, once a hole is.
module _ (map : Dict Hole) where
  pub In-head :
      (fuel a : ℕ) (hole : Hole) (l : List (ℕ × ℕ))
      → find a map ≡ some hole
      → collect fuel (some a) map ≡ some l
      → In a hole.size l
  In-head zero a hole l e c = absurd (ground (arith, collect-zero (some a) map))
  In-head (suc fuel) a hole l e c = elim (Option-cases (collect fuel hole.next map)) [
    | inl f ↦ absurd (ground (arith, collect-some fuel a hole map e))
    | inr (rest, f) ↦
        let same : (a, hole.size) ∷ rest ≡ l = ground (arith, collect-some fuel a hole map e) in
        subst (In a hole.size) same (inl (refl, refl))
  ]

  pub In-next :
      (fuel : ℕ) (head : Option ℕ) (p a s : ℕ) (hole next : Hole) (l : List (ℕ × ℕ))
      → collect fuel head map ≡ some l
      → In p s l
      → find p map ≡ some hole
      → hole.next ≡ some a
      → find a map ≡ some next
      → In a next.size l
  In-next zero head p a s hole next l c i e n f = absurd (ground (arith, collect-zero head map))
  In-next (suc fuel) none p a s hole next l c i e n f =
      let same : l ≡ [] = ground (arith, collect-none fuel map) in absurd (subst (In p s) same i)
  In-next (suc fuel) (some c) p a s hole next l r i e n f = elim (Option-cases (find c map)) [
    | inl g ↦ absurd (ground (arith, collect-dangling fuel c map g))
    | inr (first, g) ↦ elim (Option-cases (collect fuel first.next map)) [
      | inl d ↦ absurd (ground (arith, collect-some fuel c first map g))
      | inr (rest, d) ↦
          let same : l ≡ (c, first.size) ∷ rest = ground (arith, collect-some fuel c first map g) in
          elim (subst (In p s) same i) [
            | inl (is, _) ↦
                let at : first.next ≡ some a = ground arith in
                subst (In a next.size) (sym same)
                  (inr (In-head fuel a next rest f (ap (λ h. collect fuel h map) (sym at) ∙ d)))
            | inr later ↦
                subst (In a next.size) (sym same)
                  (inr (In-next fuel first.next p a s hole next rest d later e n f))
          ]
    ]
  ]
