-- ===== src/Stable/Allocator/Runs.antt =====
-- The allocator in use: any sequence of allocations, of writes to the blocks and of frees.
pub mod Keeps
pub mod Sound
use ic_kit.Base.{
  ℕ, ◌+◌, ◌*◌, ◌^◌, ◌≤◌, ◌<◌, ◌≡◌, ◌≢◌, ◌∙◌, ◌⊎◌, inl, inr, refl, sym, ap, subst, Option, none,
  some, ltb, leb, ◌==◌, arith, if◌then◌else◌, length, Returns, Returns-imp, Option-cases,
  Bool-cases, true, false,
}
use ic_kit.Certified.HashTree.{Bytes}
use ic_kit.Stable.Memory.{Memory, IsMemory, Kept}
use ic_kit.Stable.HoleList.{HoleList}
use ic_kit.Stable.HoleList.Invariant.{Apart, IsHoleList, size_at}
use ic_kit.Stable.HoleList.Merge.{Sizes, Free, IsTaken}
use ic_kit.Stable.HoleList.Insert.{Headed}
use ic_kit.Stable.HoleList.Release.{Released}
use ic_kit.Stable.Allocator.{allocate, free}
use ic_kit.Stable.Allocator.Allocate.{Allocates, Allocated, Available, allocate-Allocates, bytes_of}
use ic_kit.Stable.Allocator.Release.{free-Released}

-- The allocator, its memory, and the blocks that are in use: their sizes by address.
pub record World (M : Type 0) : Type 0 where
  pub list : HoleList
  pub mem : M
  pub live : ℕ → Option ℕ

module _ {M : Type 0} {memory : Memory M} {Good : M → Type 0} (laws : IsMemory memory Good) where
  pub data Step : World M → World M → Type 0 where
    -- A block is allocated; its first word tells its size.
    gets :
        (w : World M) (bytes addr got : ℕ) (list : HoleList) (mem : M)
        → bytes < 2 ^ 63
        → allocate memory bytes w.list w.mem ≡ some (some (addr + 8), list, mem)
        → Headed laws addr got mem
        → Step w (record {
          list = list;
          mem = mem;
          live = λ x. if addr == x then some got else w.live x;
        })
    -- The memory is full.
    fails :
        (w : World M) (bytes : ℕ) (list : HoleList) (mem : M)
        → bytes < 2 ^ 63
        → allocate memory bytes w.list w.mem ≡ some (none, list, mem)
        → Step w (record { list = list; mem = mem; live = w.live })
    -- A block in use is freed by its pointer.
    frees :
        (w : World M) (addr got : ℕ) (list : HoleList) (mem : M)
        → w.live addr ≡ some got
        → free memory (addr + 8) w.list w.mem ≡ some (list, mem)
        → Step w
            (record { list = list; mem = mem; live = λ x. if addr == x then none else w.live x })
    -- A block in use is written to, behind its first word.
    writes :
        (w : World M) (addr got offset : ℕ) (buf : Bytes) (mem : M)
        → w.live addr ≡ some got
        → addr + 8 ≤ offset
        → offset + length buf ≤ addr + got
        → memory.stable_write offset buf w.mem ≡ some mem
        → Step w (record w { mem = mem })

  -- The blocks in use are taken, have their sizes in front of them, and do not overlap.
  pub record IsSound (w : World M) : Type 0 where
    pub valid : IsHoleList (bytes_of laws w.mem) w.list
    pub good : Good w.mem
    pub taken :
        (a n : ℕ)
        → w.live a ≡ some n
        → IsTaken (bytes_of laws w.mem) a n (size_at w.list) × Headed laws a n w.mem
    pub disjoint : (a b n k : ℕ) → w.live a ≡ some n → w.live b ≡ some k → a < b → a + n ≤ b

  pub data Run (w : World M) : World M → Type 0 where
    here : Run w w
    next : {u v : World M} → Run w u → Step u v → Run w v
