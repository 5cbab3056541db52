-- ===== src/Certified/HashTree/Prunes.antt =====
-- What a hash tree may hide: pruning a subtree keeps the digest of the whole.
use ic_kit.Base.{◌≡◌, refl, sym, ap, ap₂, ◌∙◌, Bool, true, false}
use ic_kit.Certified.HashTree.{
  Bytes, Hash, Sha256, HashTree, empty, fork, labeled, pruned, fork_hash, labeled_hash, reconstruct,
}

module _ ⦃s : Sha256⦄ where
  -- `Prunes t u`: `u` is `t` with subtrees replaced by their digests.
  pub data Prunes : HashTree → HashTree → Type 0 where
    keep : {t : HashTree} → Prunes t t
    prune : {t : HashTree} {h : Hash} → reconstruct t ≡ h → Prunes t (pruned h)
    both : {l l' r r' : HashTree} → Prunes l l' → Prunes r r' → Prunes (fork l r) (fork l' r')
    inside : {t t' : HashTree} (l : Bytes) → Prunes t t' → Prunes (labeled l t) (labeled l t')
    after : {t u w : HashTree} → Prunes t u → Prunes u w → Prunes t w

  pub Prunes-reconstruct : {t u : HashTree} → Prunes t u → reconstruct u ≡ reconstruct t
  unfolding reconstruct
  Prunes-reconstruct keep = refl
  Prunes-reconstruct (prune e) = sym e
  Prunes-reconstruct (both p q) = ap₂ fork_hash (Prunes-reconstruct p) (Prunes-reconstruct q)
  Prunes-reconstruct (inside l p) = ap (labeled_hash l) (Prunes-reconstruct p)
  Prunes-reconstruct (after p q) = Prunes-reconstruct q ∙ Prunes-reconstruct p

abbrev pub is_empty : HashTree → Bool
is_empty empty = true
is_empty _ = false

abbrev pub is_labeled : HashTree → Bool
is_labeled (labeled _ _) = true
is_labeled _ = false

-- Three trees joined, with nothing pruned; the flags say which of the outer two are empty.
abbrev pub join_by : Bool → Bool → HashTree → HashTree → HashTree → HashTree
join_by true true l m r = m
join_by true false l m r = fork m r
join_by false true l m r = fork l m
join_by false false l m r = fork l (fork m r)

abbrev pub join : HashTree → HashTree → HashTree → HashTree
join l m r = join_by (is_empty l) (is_empty r) l m r
