-- ===== src/Vm/Resize.antt =====
-- `uvmdealloc` and `uvmalloc` of kernel/vm.c.
pub mod Frames
pub mod Growth
pub mod Growproc
use jklnkhbv.Base.{
  ℕ, zero, suc, ◌+◌, ◌-◌, ◌*◌, ◌/◌, ◌%◌, ◌^◌, ◌<◌, ◌≤◌, ◌≡◌, ◌≢◌, ◌⊎◌, inl, inr, refl, sym, ap, ◌∙◌,
  subst, Bool, true, false, not, Option, none, some, List, [], ◌∷◌, update, add32, if◌then◌else◌,
  arith, Bool-cases, ◌==◌, ltb, leb, ◌&&◌, ◌>>=◌,
}
use jklnkhbv.Proc.{pgsize}
use jklnkhbv.Kalloc.{Kmem, fill, kalloc, kfree, round_up}
use jklnkhbv.Kalloc.Pages.{IsPage, Elsewhere, Frees-Elsewhere, kalloc_lem}
use jklnkhbv.Vm.{
  maxva, is_valid, pte2pa, leaf, add64, Mapping, mapped, short, crash, mappages, uvmunmap,
}
use jklnkhbv.Vm.Tree.{Owns, Owns-aligned, IsTree-same, Owns-same, lookup-same, SameTables}
use jklnkhbv.Vm.Space.{In}
use jklnkhbv.Vm.Walk.{All→not_in}
use jklnkhbv.Vm.Map.{entry_at, Space, AllFree, Maps, MapOutcome, mappages_lem}
use jklnkhbv.Vm.Unmap.{IsOther, Leaves, freed, freed-Space, uvmunmap_lem}

module _ (end table : ℕ) where
  -- The new size; `none` is a panic.
  unfoldable pub uvmdealloc : ℕ → ℕ → Kmem → Option (ℕ × Kmem)
  uvmdealloc oldsz newsz k =
      let npages = (round_up oldsz - round_up newsz) / pgsize in
      if leb oldsz newsz
      then some (oldsz, k)
      else if ltb (round_up newsz) (round_up oldsz)
      then (uvmunmap end table (round_up newsz) npages true k >>= λ k1. some (newsz, k1))
      else some (newsz, k)

  -- `uvmalloc` gives the new size, the number `heap_pages` of the process and the memory, or panics
  -- as `none`. Here it gives up at `a`.
  abbrev pub give_back : ℕ → ℕ → ℕ → Kmem → Option (ℕ × ℕ × Kmem)
  give_back a oldsz heap k = uvmdealloc a oldsz k >>= λ r. some (0, heap, r.1)

  -- The end of a round, with what `mappages` returns for `page`.
  unfoldable pub keep_page :
      ℕ → ℕ → ℕ → ℕ → (Kmem → Option (ℕ × ℕ × Kmem)) → Mapping → Option (ℕ × ℕ × Kmem)
  keep_page page a oldsz heap next (mapped k) = next k
  keep_page page a oldsz heap next (short k) = kfree end page k >>= give_back a oldsz heap
  keep_page page a oldsz heap next crash = none

  -- The loop of `uvmalloc` at `a`, on fuel; `perm` is `PTE_R|PTE_U|xperm`.
  unfoldable pub alloc_loop : ℕ → ℕ → ℕ → ℕ → ℕ → ℕ → Kmem → Option (ℕ × ℕ × Kmem)
  alloc_loop zero oldsz newsz perm a heap k = none
  alloc_loop (suc fuel) oldsz newsz perm a heap k =
      let (page, k1) = kalloc k in
      let k2 = record k1 { mem = fill page 0 k1.mem } in
      let heap' = add32 heap 1 in
      let next = alloc_loop fuel oldsz newsz perm (add64 a pgsize) heap' in
      if not (ltb a newsz)
      then some (newsz, heap, k)
      else if page == 0
      then give_back a oldsz heap k1
      else keep_page page a oldsz heap' next (mappages table a pgsize page perm k2)

  unfoldable pub uvmalloc : ℕ → ℕ → ℕ → ℕ → Kmem → Option (ℕ × ℕ × Kmem)
  uvmalloc oldsz newsz perm heap k =
      let b = round_up oldsz in
      if ltb newsz oldsz
      then some (oldsz, heap, k)
      else alloc_loop (suc (newsz / pgsize + 1)) b newsz perm b heap k

module _ (end : ℕ) (low : 0 < end) (table : ℕ) where
  -- From a size up to MAXVA, where the pages between the sizes, rounded up, can be unmapped and
  -- freed: `uvmdealloc` returns the smaller size, the entries of these pages are 0 and the pages
  -- free, and all other entries stay.
  pub uvmdealloc_lem :
      (oldsz newsz : ℕ) (k : Kmem) (pages : List ℕ)
      → Space end low table k pages
      → oldsz ≤ maxva
      → Leaves end low table true
          ((round_up oldsz - round_up newsz) / pgsize)
          (round_up newsz)
          k
          pages
      → (k' : Kmem) × (uvmdealloc end table oldsz newsz k
          ≡ some ((if leb oldsz newsz then oldsz else newsz), k'))
        × Space end low table k' (
            freed end low table true
              ((round_up oldsz - round_up newsz) / pgsize)
              (round_up newsz)
              k
              pages)
        × ((va : ℕ)
            → va < maxva
            → entry_at k' table va ≡ (
                if leb (round_up newsz) va && ltb va (round_up oldsz)
                then 0
                else entry_at k table va))
  unfolding uvmdealloc
  uvmdealloc_lem oldsz newsz k pages s fits v =
      let n = (round_up oldsz - round_up newsz) / pgsize in
      elim (Bool-cases (ltb (round_up newsz) (round_up oldsz))) [
        | inr same ↦
            let none_left : n ≡ 0 = ground (arith, same) in
            let all_kept : Space end low table k
                (freed end low table true n (round_up newsz) k pages) =
              rw none_left s in
            let empty : (va : ℕ)
                → va < maxva
                → entry_at k table va ≡ (
                    if leb (round_up newsz) va && ltb va (round_up oldsz)
                    then 0
                    else entry_at k table va) =
              λ va h. ground (arith, same) in
            elim (Bool-cases (leb oldsz newsz)) [
              | inl grows ↦ (k, rw grows refl, all_kept, empty)
              | inr shrinks ↦ (k, rw (shrinks, same) refl, all_kept, empty)
            ]
        | inl less ↦
            let shrinks : leb oldsz newsz ≡ false = ground (arith, less) in
            let upto : round_up newsz + n * pgsize ≡ round_up oldsz = ground (arith, less) in
            elim (uvmunmap_lem end low table (round_up newsz) n true k pages s
              (ground (arith, less, fits)) v) [
                | inl (off, e) ↦ absurd (omega (arith, off))
                | inr (k', e, s', reads) ↦
                    (k', rw (shrinks, less, e) refl, s', λ va h. reads va h ∙ rw upto refl)
              ]
      ]
