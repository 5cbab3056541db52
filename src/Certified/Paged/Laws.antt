-- ===== src/Certified/Paged/Laws.antt =====
-- The readings of a `Paged` of paged.rs against the entries of its tree.
use ic_kit.Base.{ℕ, ◌≡◌, refl, ◌∙◌, Option, none, some, List, ◌%◌, ◌^◌, arith, Ordering-cases}
use ic_kit.Certified.HashTree.{Sha256}
use ic_kit.Certified.Label.{Label, AsHashTree}
use ic_kit.Certified.Assoc.{Sorted, find}
use ic_kit.Certified.RbTree.Node.{Node, null, node}
use ic_kit.Certified.RbTree.Keeps.{entries}
use ic_kit.Certified.RbTree.Insert.{get_from}
use ic_kit.Certified.RbTree.Insert.Refines.{get_from-find}
use ic_kit.Certified.RbTree.Query.{get_with_from, get_with}
use ic_kit.Certified.RbTree.Query.Laws.{last_with, max_entry_with_prefix-last}
use ic_kit.Certified.Seq.{Seq}
use ic_kit.Certified.Paged.Key.{PagedKey, key_label, key_prefix, is_eq, page_key}
use ic_kit.Certified.Paged.{Paged, get, get_last_page_number}

module _ {K V : Type 0} ⦃label : Label K⦄ where
  -- Searching by the comparison with a key is searching for the key.
  get_with_from-get_from :
      (key : K) (n : Node K V) → get_with_from (label.cmp key) n ≡ get_from key n
  unfolding get_with_from get_from
  get_with_from-get_from key null = refl
  get_with_from-get_from key (node k v l r c h) = ground (
    arith,
    Ordering-cases (label.cmp key k),
    get_with_from-get_from key l,
    get_with_from-get_from key r,
  )

module _ {K V : Type 0} ⦃s : Sha256⦄ ⦃label : Label K⦄ ⦃tree : AsHashTree V⦄ where
  -- In a tree whose keys rise `get` reads the sequence under the key and the page's low 32 bits.
  pub get-find :
      (key : K) (page : ℕ) (p : Paged K V)
      → Sorted (entries p.pages.inner.root)
      → get key page p ≡ find (page_key key (page % 2 ^ 32)) (entries p.pages.inner.root)
  unfolding get get_with key_label
  get-find key page p h =
      get_with_from-get_from _ p.pages.inner.root ∙ get_from-find _ p.pages.inner.root h

  abbrev pub last_page : K → List (PagedKey K × Seq V) → Option ℕ
  last_page key m = elim (last_with (λ k. is_eq (label.cmp k.key key)) m) [
    | none ↦ none
    | some e ↦ some e.0.page
  ]

  -- In a tree whose keys rise `get_last_page_number` is the page of the last entry under the key, and
  -- nothing where the key has no page.
  pub get_last_page_number-last_page :
      (key : K) (p : Paged K V)
      → Sorted (entries p.pages.inner.root)
      → get_last_page_number key p ≡ last_page key (entries p.pages.inner.root)
  unfolding get_last_page_number key_prefix
  get_last_page_number-last_page key p h =
      rw (get_last_page_number, max_entry_with_prefix-last key p.pages.inner h) refl
