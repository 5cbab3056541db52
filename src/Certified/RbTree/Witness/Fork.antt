-- ===== src/Certified/RbTree/Witness/Fork.antt =====
-- `three_way_fork` of rbtree.rs: it joins its trees, and may prune what is pruned in parts.
use ic_kit.Base.{◌≡◌, refl, Bool, true, false}
use ic_kit.Certified.HashTree.{Sha256, HashTree, empty, labeled, pruned, reconstruct}
use ic_kit.Certified.HashTree.Prunes.{
  Prunes, keep, prune, both, inside, after, is_empty, is_labeled, join, join_by,
}
use ic_kit.Certified.RbTree.Node.{three_way_fork}

module _ ⦃s : Sha256⦄ where
  -- A node in full is never pruned, so nothing is.
  pub three_way_fork-join :
      (l m r : HashTree) → is_labeled m ≡ true → three_way_fork l m r ≡ join l m r
  unfolding three_way_fork
  three_way_fork-join empty (labeled a t) empty e = refl
  three_way_fork-join empty (labeled a t) _ e = refl
  three_way_fork-join _ (labeled a t) empty e = refl
  three_way_fork-join _ (labeled a t) _ e = refl
  three_way_fork-join l _ r e = cc

  join_by-Prunes :
      (a b : Bool) {l l' m m' r r' : HashTree}
      → Prunes l l'
      → Prunes m m'
      → Prunes r r'
      → Prunes (join_by a b l m r) (join_by a b l' m' r')
  join_by-Prunes true true pl pm pr = pm
  join_by-Prunes true false pl pm pr = both pm pr
  join_by-Prunes false true pl pm pr = both pl pm
  join_by-Prunes false false pl pm pr = both pl (both pm pr)

  join-Prunes_fork :
      (l m r : HashTree) → is_empty m ≡ false → Prunes (join l m r) (three_way_fork l m r)
  unfolding three_way_fork reconstruct
  join-Prunes_fork l empty r e = cc
  join-Prunes_fork empty (pruned m) empty e = keep
  join-Prunes_fork (pruned l) (pruned m) empty e = keep
  join-Prunes_fork _ (pruned m) empty e = keep
  join-Prunes_fork empty (pruned m) (pruned r) e = keep
  join-Prunes_fork (pruned l) (pruned m) (pruned r) e = prune refl
  join-Prunes_fork _ (pruned m) (pruned r) e = both keep (prune refl)
  join-Prunes_fork empty (pruned m) _ e = keep
  join-Prunes_fork (pruned l) (pruned m) _ e = keep
  join-Prunes_fork _ (pruned m) _ e = keep
  join-Prunes_fork empty _ empty e = keep
  join-Prunes_fork empty _ (pruned r) e = keep
  join-Prunes_fork empty _ _ e = keep
  join-Prunes_fork (pruned l) _ empty e = keep
  join-Prunes_fork (pruned l) _ (pruned r) e = keep
  join-Prunes_fork (pruned l) _ _ e = keep
  join-Prunes_fork _ _ empty e = keep
  join-Prunes_fork _ _ (pruned r) e = keep
  join-Prunes_fork _ _ _ e = keep

  -- Pruning the three parts prunes the whole, if no part appears or disappears.
  pub three_way_fork-Prunes :
      (l l' m m' r r' : HashTree)
      → is_empty l' ≡ is_empty l
      → is_empty r' ≡ is_empty r
      → is_empty m' ≡ false
      → is_labeled m ≡ true
      → Prunes l l'
      → Prunes m m'
      → Prunes r r'
      → Prunes (three_way_fork l m r) (three_way_fork l' m' r')
  three_way_fork-Prunes l l' m m' r r' el er em lm pl pm pr = rw (three_way_fork-join l m r lm) (
      after (join_by-Prunes (is_empty l) (is_empty r) pl pm pr)
        (let step = join-Prunes_fork l' m' r' em in rw (el, er) at step))

  join_by-is_empty :
      (a b : Bool) (l m r : HashTree) → is_empty m ≡ false → is_empty (join_by a b l m r) ≡ false
  join_by-is_empty true true l m r e = e
  join_by-is_empty true false l m r e = refl
  join_by-is_empty false true l m r e = refl
  join_by-is_empty false false l m r e = refl

  -- A pruning of a tree that is not empty is not empty.
  Prunes-is_empty : {t u : HashTree} → Prunes t u → is_empty t ≡ false → is_empty u ≡ false
  Prunes-is_empty keep e = e
  Prunes-is_empty (prune h) e = refl
  Prunes-is_empty (both p q) e = refl
  Prunes-is_empty (inside l p) e = refl
  Prunes-is_empty (after p q) e = Prunes-is_empty q (Prunes-is_empty p e)

  pub three_way_fork-is_empty :
      (l m r : HashTree) → is_empty m ≡ false → is_empty (three_way_fork l m r) ≡ false
  three_way_fork-is_empty l m r e =
      Prunes-is_empty (join-Prunes_fork l m r e)
        (join_by-is_empty (is_empty l) (is_empty r) l m r e)
