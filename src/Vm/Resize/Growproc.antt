-- ===== src/Vm/Resize/Growproc.antt =====
-- `growproc` of kernel/proc.c, on the size, the page table and the number `heap_pages` of the caller.
use jklnkhbv.Base.{
  ℕ, suc, ◌+◌, ◌-◌, ◌%◌, ◌^◌, ◌<◌, ◌≤◌, ◌≡◌, ◌⊎◌, Option, some, List, [], ℤ, pos, negsuc,
  if◌then◌else◌, ◌==◌, ltb, leb, ◌&&◌, ◌>>=◌,
}
use jklnkhbv.Proc.Fork.{Code, err, val}
use jklnkhbv.Kalloc.{Kmem, round_up}
use jklnkhbv.Vm.{maxva, add64}
use jklnkhbv.Vm.Map.{entry_at, Space}
use jklnkhbv.Vm.Resize.{uvmdealloc, uvmalloc}
use jklnkhbv.Vm.Resize.Frames.{Sofar, Restored}
use jklnkhbv.Vm.Resize.Growth.{pages_between}

-- `PTE_R|PTE_U|PTE_W`
abbrev pub heap_flags : ℕ
heap_flags = 22

-- What `growproc` makes of the size that `uvmalloc` returns.
abbrev pub sized : ℕ → ℕ × ℕ × Kmem → Code × ℕ × ℕ × Kmem
sized sz r = if r.0 == 0 then (err, sz, r.1, r.2) else (val 0, r.0, r.1, r.2)

-- The result, the size, `heap_pages` and the memory; `none` is a panic.
unfoldable pub growproc : ℕ → ℕ → ℤ → ℕ → ℕ → Kmem → Option (Code × ℕ × ℕ × Kmem)
growproc end table (pos n) sz heap k =
    if ltb 0 n
    then (uvmalloc end table sz (add64 sz n) heap_flags heap k >>= λ r. some (sized sz r))
    else some (val 0, sz, heap, k)
growproc end table (negsuc n) sz heap k =
    uvmdealloc end table sz ((sz + 2 ^ 64 - suc n) % 2 ^ 64) k >>= λ r. some (val 0, r.0, heap, r.1)

-- The size that is asked for; a size below 0 is no change.
abbrev pub size_after : ℤ → ℕ → ℕ
size_after (pos n) sz = sz + n
size_after (negsuc n) sz = if leb (suc n) sz then sz - suc n else sz

-- Without its sign.
abbrev pub magnitude : ℤ → ℕ
magnitude (pos n) = n
magnitude (negsuc n) = suc n

module _ (end : ℕ) (low : 0 < end) (table : ℕ) (n : ℤ) (sz heap : ℕ) (k : Kmem) where
  -- The new size holds: new pages have entries, or those behind it have none any more.
  abbrev pub Resized : ℕ × ℕ × Kmem → Type 0
  Resized (sz', heap', k') =
      (sz' ≡ size_after n sz)
      × (((sz' < sz)
            × ((va : ℕ)
                → va < maxva
                → entry_at k' table va ≡ (
                    if leb (round_up sz') va && ltb va (round_up sz)
                    then 0
                    else entry_at k table va)))
          ⊎ ((sz ≤ sz')
              × ((frames : ℕ → ℕ) × (pages' : List ℕ) × Sofar end low table (round_up sz) heap_flags
                    k (pages_between end low table sz sz') frames k' pages')))

  -- Memory has run out at some page, and the size is as before.
  abbrev pub Unchanged : ℕ × ℕ × Kmem → Type 0
  Unchanged (sz', heap', k') =
      (sz' ≡ sz)
      × ((m : ℕ) × (m < pages_between end low table sz (size_after n sz))
          × Restored end low table (round_up sz) heap_flags k m k'
          × ((k1 : Kmem) × (frames : ℕ → ℕ) × Sofar end low table (round_up sz) heap_flags k m
                frames k1 []))

  abbrev pub GrowprocOutcome : Code × ℕ × ℕ × Kmem → Type 0
  GrowprocOutcome (code, sz', heap', k') =
      ((code ≡ val 0) × Resized (sz', heap', k')) ⊎ ((code ≡ err) × Unchanged (sz', heap', k'))

module _ (end : ℕ) (low : 0 < end) (table sz heap : ℕ) (k : Kmem) (pages : List ℕ)
    (s : Space end low table k pages) (old : sz ≤ maxva) where
  abbrev Ended : ℤ → Type 0
  Ended n =
      (r : Code × ℕ × ℕ × Kmem) × (growproc end table n sz heap k ≡ some r)
      × GrowprocOutcome end low table n sz heap k r
