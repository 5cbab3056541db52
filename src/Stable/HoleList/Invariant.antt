-- ===== src/Stable/HoleList/Invariant.antt =====
-- What holds of the lists of holes of hole.rs between the operations.
use ic_kit.Base.{ℕ, ◌+◌, ◌^◌, ◌≤◌, ◌<◌, ◌≡◌, Option, none, some, arith}
use ic_kit.Dict.{find}
use ic_kit.Stable.HoleList.{Hole, HoleList, new_list}
use ic_kit.Stable.HoleList.Index.{get_log2_index, get_log2_index-least}
use ic_kit.Stable.HoleList.Links.{Linked}
use ic_kit.Stable.HoleList.Boundaries.{Bounded}

abbrev pub size_of : Option Hole → Option ℕ
size_of none = none
size_of (some hole) = some hole.size

-- The size of the hole that starts at an address.
abbrev pub size_at : HoleList → ℕ → Option ℕ
size_at list a = size_of (find a list.map)

-- The holes have at least the smallest size, lie below the limit, and neither overlap nor touch.
pub record Apart (limit : ℕ) (sizes : ℕ → Option ℕ) : Type 0 where
  pub sized : (a n : ℕ) → sizes a ≡ some n → (16 ≤ n) × (a + n ≤ limit)
  pub gap : (a b n m : ℕ) → sizes a ≡ some n → sizes b ≡ some m → a < b → a + n < b

-- Every hole stands in the list of its size, in a place that its neighbours and the root agree on.
pub record IsHoleList (limit : ℕ) (list : HoleList) : Type 0 where
  pub age : ℕ → ℕ
  pub top : ℕ
  pub linked : Linked (λ a. find a list.map) list.roots age top
  pub apart : Apart limit (size_at list)
  pub bounded : Bounded list
  pub limit_le : limit ≤ 2 ^ 39

pub new_list-IsHoleList : (limit : ℕ) → limit ≤ 2 ^ 39 → IsHoleList limit new_list
unfolding new_list find
new_list-IsHoleList limit h = record {
  age = λ _. 0;
  top = 0;
  linked = record {
    forward = λ a b hole e. absurd (ground arith);
    backward = λ a b hole e. absurd (ground arith);
    first = λ a hole e. absurd (ground arith);
    from_root = λ i a e. absurd (ground arith);
    young = λ a hole e. absurd (ground arith);
  };
  apart = record {
    sized = λ a n e. absurd (ground arith);
    gap = λ a b n m e. absurd (ground arith);
  };
  bounded = (
    (omega arith, λ i k. ground arith, λ r e. absurd (omega arith)),
    (omega arith, λ i k. ground arith, λ k. absurd (omega arith)),
  );
  limit_le = h;
}

module _ {limit : ℕ} {list : HoleList} (valid : IsHoleList limit list) where
  -- A hole has one of the 36 lists.
  pub index-inside : (a n : ℕ) → size_at list a ≡ some n → get_log2_index n < 36
  index-inside a n e =
      let s = valid.apart.sized a n e in
      let l = valid.limit_le in (get_log2_index-least n s.0 (omega arith)).2.1 (omega arith)
