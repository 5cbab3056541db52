-- ===== src/Certified/Paged.antt =====
-- ic-kit-certified/src/collections/paged.rs: each key's items in pages of a fixed size `S`, kept in the
-- tree under the key and the page's number.
pub mod Key
pub mod Laws
use ic_kit.Base.{
  ℕ, ◌+◌, ◌%◌, ◌^◌, Bool, Option, none, some, ◌>>=◌, length, ◌==◌, if◌then◌else◌, unwrap_or,
}
use ic_kit.Certified.HashTree.{Hash, Sha256, HashTree}
use ic_kit.Certified.Label.{Label, AsHashTree}
use ic_kit.Certified.RbTree.Insert as Tree
use ic_kit.Certified.RbTree.Query.{Prefix, modify_max_with_prefix, max_entry_with_prefix, get_with}
use ic_kit.Certified.Seq.{Seq, append, seq_tree}
use ic_kit.Certified.Seq as Seq
use ic_kit.Certified.Map.{Map, map_witness, map_hash, map_tree}
use ic_kit.Certified.Map as Map
use ic_kit.Certified.Paged.Key.{PagedKey, key_label, key_prefix, cmp_page, page_key}

pub record Paged (K V : Type 0) : Type 0 where
  pub pages : Map (PagedKey K) (Seq V)

unfoldable pub new : {K V : Type 0} → Paged K V
unfolding Map.new
new = record { pages = Map.new }

module _ {K V : Type 0} ⦃s : Sha256⦄ ⦃label : Label K⦄ ⦃tree : AsHashTree V⦄ where
  -- The closure of `insert` for a page: it takes the item, or asks for the next page where this one has
  -- `S` items. The number is a `u32`, which wraps.
  unfoldable pub fill : ℕ → V → PagedKey K → Seq V → Seq V × Option ℕ
  unfolding append Seq.len
  fill S item k seq =
      if Seq.len seq == S then (seq, some ((k.page + 1) % 2 ^ 32)) else (append item seq, none)

  unfoldable pub insert : ℕ → K → V → Paged K V → Option (Paged K V)
  unfolding modify_max_with_prefix fill append Seq.new key_label key_prefix
  insert S key item p =
      let r = modify_max_with_prefix key (fill S item) p.pages.inner in
      elim (unwrap_or r.1 (some 0)) [
        | none ↦ some (record { pages = record { inner = r.0 } })
        | some page ↦ do
          (t, _) ← Tree.insert (page_key key page) (append item Seq.new) r.0
          some (record { pages = record { inner = t } })
      ]

  unfoldable pub get_last_page_number : K → Paged K V → Option ℕ
  unfolding max_entry_with_prefix key_label key_prefix
  get_last_page_number key p = elim (max_entry_with_prefix key p.pages.inner) [
    | none ↦ none
    | some e ↦ some e.0.page
  ]

  -- The page after the last one; a key without pages has the page 0 next.
  abbrev pub next_page : Option (PagedKey K × Seq V) → ℕ
  next_page none = 0
  next_page (some e) = (e.0.page + 1) % 2 ^ 32

  unfoldable pub witness_last_page_number : K → Paged K V → Option HashTree
  unfolding max_entry_with_prefix map_witness key_label key_prefix
  witness_last_page_number key p =
      map_witness (page_key key (next_page (max_entry_with_prefix key p.pages.inner))) p.pages

  -- `page as u32` keeps the low 32 bits.
  unfoldable pub get : K → ℕ → Paged K V → Option (Seq V)
  unfolding get_with cmp_page
  get key page p = get_with (cmp_page (page_key key (page % 2 ^ 32))) p.pages.inner

  unfoldable pub page_witness : K → ℕ → Paged K V → Option HashTree
  unfolding map_witness key_label
  page_witness key page p = map_witness (page_key key (page % 2 ^ 32)) p.pages

  unfoldable pub paged_hash : Paged K V → Hash
  unfolding map_hash
  paged_hash p = map_hash p.pages

  unfoldable pub paged_tree : Paged K V → HashTree
  unfolding map_tree
  paged_tree p = map_tree p.pages
