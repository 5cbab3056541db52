-- ===== src/Certified/Seq/Laws.antt =====
-- The ways to fill a `Seq` of seq.rs agree, and its hash commits to its items.
use ic_kit.Base.{
  ◌≡◌, refl, sym, ap, ◌∙◌, some, List, [], ◌∷◌, ◌++◌, append_assoc, append-nil, length,
}
use ic_kit.Certified.HashTree.{Sha256}
use ic_kit.Certified.Label.{AsHashTree}
use ic_kit.Certified.Seq.{
  Seq, items_from, new, append, chain_hash, recompute_hash, from_vec, extend,
}

module _ {T : Type 0} where
  items_from-append : (a b : List T) → items_from (length a) (a ++ b) ≡ some b
  unfolding items_from
  items_from-append [] b = refl
  items_from-append (x ∷ a) b = items_from-append a b

module _ {T : Type 0} ⦃s : Sha256⦄ ⦃tree : AsHashTree T⦄ where
  -- The calls of `append` on each item of a list in turn.
  pub append_each : List T → Seq T → Seq T
  append_each [] q = q
  append_each (x ∷ xs) q = append_each xs (append x q)

  append_each-chain :
      (xs : List T) (q : Seq T)
      → append_each xs q ≡ record { hash = chain_hash q.hash xs; items = q.items ++ xs }
  unfolding append_each append chain_hash
  append_each-chain [] q = ap (λ i. record { hash = q.hash; items = i }) (sym (append-nil q.items))
  append_each-chain (x ∷ xs) q =
      append_each-chain xs (append x q)
      ∙ ap (λ i. record { hash = chain_hash (s.digest (q.hash ++ tree.root_hash x)) xs; items = i })
          (append_assoc q.items (x ∷ []) xs)

  -- `extend` never panics, and leaves the sequence, its hash included, that one `append` for each new item
  -- would leave.
  pub extend-append_each : (xs : List T) (q : Seq T) → extend xs q ≡ some (append_each xs q)
  unfolding extend recompute_hash
  extend-append_each xs q = rw (items_from-append q.items xs, append_each-chain xs q) refl

  -- A sequence made of a vector is the one that appending its items to an empty sequence makes.
  pub from_vec-append_each : (xs : List T) → from_vec xs ≡ some (append_each xs new)
  unfolding from_vec recompute_hash items_from new
  from_vec-append_each xs = rw (append_each-chain xs new) refl
