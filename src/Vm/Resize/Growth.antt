-- ===== src/Vm/Resize/Growth.antt =====
-- `uvmalloc` of kernel/vm.c: its loop, page by page.
use jklnkhbv.Base.{ℕ, ◌+◌, ◌-◌, ◌*◌, ◌/◌, ◌%◌, ◌^◌, ◌<◌, ◌≤◌, ◌≡◌, ◌⊎◌, Option, some, List, []}
use jklnkhbv.Proc.{pgsize}
use jklnkhbv.Kalloc.{Kmem, round_up}
use jklnkhbv.Vm.{maxva}
use jklnkhbv.Vm.Map.{Space, AllFree}
use jklnkhbv.Vm.Resize.Frames.{Sofar, Restored}

module _ (end : ℕ) (low : 0 < end) (table : ℕ) where
  module _ (b perm : ℕ) (k0 : Kmem) where
    module _ (flags : perm < 2 ^ 10) (user : perm / 2 ^ 4 % 2 ≡ 1) (al : b % pgsize ≡ 0) where
      module _ (newsz goal : ℕ) (lo : newsz ≤ b + goal * pgsize)
          (hi : b + goal * pgsize < newsz + pgsize) (fits : newsz ≤ maxva)
          (free : AllFree table goal b k0) where
        -- All pages have been mapped, or memory ran out after some, and those are gone again.
        abbrev pub GrowOutcome : ℕ × ℕ × Kmem → Type 0
        GrowOutcome (size, heap, k') =
            ((size ≡ newsz)
              × ((frames : ℕ → ℕ) × (pages' : List ℕ) × Sofar end low table b perm k0 goal frames k'
                    pages'))
            ⊎ ((size ≡ 0)
                × ((n : ℕ) × (n < goal)
                    × Restored end low table b perm k0 n k'
                    × ((k1 : Kmem) × (frames : ℕ → ℕ) × Sofar end low table b perm k0 n frames k1
                          [])))

        abbrev pub Grows : Option (ℕ × ℕ × Kmem) → Type 0
        Grows o = (r : ℕ × ℕ × Kmem) × (o ≡ some r) × GrowOutcome r

  abbrev pub pages_between : ℕ → ℕ → ℕ
  pages_between oldsz newsz = (round_up newsz - round_up oldsz) / pgsize
