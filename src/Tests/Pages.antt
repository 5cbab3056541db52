-- ===== src/Tests/Pages.antt =====
-- Pages of two items: a run of `insert`, and the theorems at a tree with two pages of one key.
use ic_kit.Base.{ℕ, ◌≡◌, refl, [], ◌∷◌, Option, some, none, ◌>>=◌}
use ic_kit.Certified.Label.{u8_label, vec_tree}
use ic_kit.Certified.Assoc.{Sorted}
use mathlib.Core.Option.{or_else}
use ic_kit.Certified.RbTree.Insert as Tree
use ic_kit.Certified.RbTree.Insert.{insert_from}
use ic_kit.Certified.RbTree.Node.{node, null, black, red, set_color, balance}
use ic_kit.Certified.RbTree.Keeps.{entries}
use ic_kit.Certified.Seq.{Seq, len, seq_tree}
use ic_kit.Certified.Paged.{Paged, new, insert, get, get_last_page_number}
use ic_kit.Certified.Paged.Key.{page_key, key_label}
use ic_kit.Certified.Paged.Laws.{last_page, get_last_page_number-last_page}
use ic_kit.Tests.Tree.{B, toy}

full : Seq B
full = record { hash = []; items = (1 ∷ []) ∷ (2 ∷ []) ∷ [] }

-- The key 5 with the pages 0 and 1.
paged : Paged ℕ B
paged = record {
  pages = record {
    inner = record {
      len = 2;
      root = node (page_key 5 0) full null (node (page_key 5 1) full null null red []) black [];
    };
  };
}

paged-Sorted : Sorted (entries paged.pages.inner.root)
unfolding paged key_label u8_label
paged-Sorted = ((refl, tt), (tt, tt))

get_last_page_number-last_page_example :
    get_last_page_number 5 paged ≡ last_page 5 (entries paged.pages.inner.root)
get_last_page_number-last_page_example = get_last_page_number-last_page 5 paged paged-Sorted

filled : Option (Option ℕ × Option ℕ × Option ℕ)
unfolding new insert get_last_page_number get len u8_label vec_tree Tree.insert insert_from
    set_color balance or_else
filled = do
  p ← insert {K = ℕ} {V = B} 2 5 (1 ∷ []) new
  p ← insert 2 4 (2 ∷ []) p
  p ← insert 2 5 (3 ∷ []) p
  p ← insert 2 5 (4 ∷ []) p
  some (
    get_last_page_number 4 p,
    get_last_page_number 5 p,
    elim (get 5 0 p) [ none ↦ none | some q ↦ some (len q) ],
  )

filled_pages : filled ≡ some (some 0, some 1, some 2)
unfolding filled
filled_pages = refl
