-- ===== src/Certified/Map/Laws.antt =====
-- The maps of map.rs against the list of entries.
use ic_kit.Base.{
  ◌≡◌, refl, ap, ◌∙◌, Option, none, some, List, [], ◌∷◌, Returns, Returns-bind, ◌>>=◌,
}
use ic_kit.Certified.HashTree.{Sha256}
use ic_kit.Certified.Label.{Label, AsHashTree}
use ic_kit.Certified.Assoc.{find, put}
use ic_kit.Certified.RbTree.Insert as Tree
use ic_kit.Certified.RbTree.Insert.{RbTree}
use ic_kit.Certified.RbTree.Insert.Refines.{IsValid, InsertedIn, insert-put}
use ic_kit.Certified.RbTree.Keeps.{entries}
use ic_kit.Certified.RbTree.Query.Laws.{ModifiedIn, modify-put}
use ic_kit.Certified.Seq.{Seq, append, seq_tree}
use ic_kit.Certified.Seq as Seq
use ic_kit.Certified.Map.{Map, new, insert, insert_each, from_iter, append_deep}

module _ {K V : Type 0} ⦃s : Sha256⦄ ⦃label : Label K⦄ ⦃tree : AsHashTree V⦄ where
  -- The entries put one after the other, so that a later one stands for its key.
  pub put_each : List (K × V) → List (K × V) → List (K × V)
  put_each [] m = m
  put_each ((k, v) ∷ rest) m = put_each rest (put k v m)

  -- The map is valid and holds these entries.
  pub record Holds (m : Map K V) (list : List (K × V)) : Type 0 where
    pub valid : IsValid m.inner
    pub same : entries m.inner.root ≡ list

  insert-Holds :
      (k : K) (v : V) (m : Map K V) (list : List (K × V))
      → Holds m list
      → Returns (λ p. Holds p.0 (put k v list)) (insert k v m)
  unfolding insert
  insert-Holds k v m list h =
      Returns-bind (InsertedIn k v m.inner) _ (Tree.insert k v m.inner) _
        (insert-put k v m.inner h.valid)
        λ p ip. record { valid = ip.valid; same = ip.same ∙ ap (put k v) h.same }

  insert_each-put_each :
      (pairs : List (K × V)) (m : Map K V) (list : List (K × V))
      → Holds m list
      → Returns (λ n. Holds n (put_each pairs list)) (insert_each pairs m)
  unfolding insert_each put_each
  insert_each-put_each [] m list h = h
  insert_each-put_each ((k, v) ∷ rest) m list h =
      Returns-bind (λ p. Holds p.0 (put k v list)) (λ n. Holds n (put_each rest (put k v list)))
        (insert k v m) _ (insert-Holds k v m list h)
        λ p ip. insert_each-put_each rest p.0 (put k v list) ip

  new-Holds : Holds new []
  unfolding new Tree.new
  new-Holds = record { valid = record { sorted = tt; counted = refl; hashed = tt }; same = refl }

  -- A map made of a sequence of entries is made without a fault: it is valid, and of the entries with the same
  -- key it holds the last.
  pub from_iter-put_each :
      (pairs : List (K × V)) → Returns (λ m. Holds m (put_each pairs [])) (from_iter pairs)
  unfolding from_iter
  from_iter-put_each pairs = insert_each-put_each pairs new [] new-Holds

module _ {V : Type 0} ⦃s : Sha256⦄ ⦃tree : AsHashTree V⦄ where
  -- What a key's sequence becomes when the value is appended; a key without one has the empty sequence.
  pub deep : V → Option (Seq V) → Seq V
  deep value none = append value Seq.new
  deep value (some seq) = append value seq

module _ {K V : Type 0} ⦃s : Sha256⦄ ⦃label : Label K⦄ ⦃tree : AsHashTree V⦄ where
  appended :
      (key : K) (value : V) (t : RbTree K (Seq V))
      → IsValid t
      → (got : Option (Seq V)) (p : RbTree K (Seq V) × Option (Unit {0}))
      → ModifiedIn (λ seq. (append value seq, tt)) key t p got
      → Returns
          (λ n. Holds n (put key (deep value got) (entries t.root)))
          (elim p.1 [
            | some _ ↦ some (record { inner = p.0 })
            | none ↦ do
              (t, _) ← Tree.insert key (append value Seq.new) p.0
              some (record { inner = t })
          ])
  unfolding deep
  appended key value t h none p a =
      rw (ap (λ q. q.1) a, ap (λ q. q.0) a)
        (Returns-bind (InsertedIn key _ t) _ (Tree.insert key _ t) _ (insert-put key _ t h)
          λ q iq. record { valid = iq.valid; same = iq.same })
  appended key value t h (some seq) p a = rw (a.result) (record { valid = a.valid; same = a.same })

  -- `append_deep` on a valid map faults nowhere; the map stays valid, and the key's sequence, an empty one
  -- where it had none, has the value appended.
  pub append_deep-put :
      (key : K) (value : V) (m : Map K (Seq V))
      → IsValid m.inner
      → Returns
          (λ n.
            Holds n (put key (deep value (find key (entries m.inner.root))) (entries m.inner.root)))
          (append_deep key value m)
  unfolding append_deep
  append_deep-put key value m h =
      appended key value m.inner h (find key (entries m.inner.root)) _ (modify-put _ key m.inner h)
