-- ===== src/Kalloc.antt =====
-- The page allocator of kernel/kalloc.c.
pub mod Pages
pub mod Start
mod Examples
use jklnkhbv.Base.{
  ℕ, zero, suc, ◌+◌, ◌-◌, ◌*◌, ◌/◌, ◌%◌, Bool, true, false, not, Option, none, some, update, ◌==◌,
  ltb, leb, ◌&&◌, ◌||◌, if◌then◌else◌, ◌>>=◌,
}
use jklnkhbv.Proc.{pgsize}

abbrev pub kernbase : ℕ
kernbase = 0x80000000

abbrev pub phystop : ℕ
phystop = kernbase + 128 * 1024 * 1024

-- Memory as 64-bit words: the word at an address that is a multiple of 8. `freelist` is 0 for the
-- null pointer.
pub record Kmem : Type 0 where
  pub freelist : ℕ
  pub mem : ℕ → ℕ

-- `memset(pa, c, PGSIZE)`, with the word that holds `c` in each byte.
abbrev pub fill : ℕ → ℕ → (ℕ → ℕ) → ℕ → ℕ
fill pa word mem a = if leb pa a && ltb a (pa + pgsize) then word else mem a

abbrev pub bytes_of_1 : ℕ
bytes_of_1 = 0x0101010101010101

abbrev pub bytes_of_5 : ℕ
bytes_of_5 = 0x0505050505050505

-- `PGROUNDUP`
abbrev pub round_up : ℕ → ℕ
round_up a = (a + pgsize - 1) / pgsize * pgsize

-- `end` is the first address after the kernel, which the linker sets.
module _ (end : ℕ) where
  -- `none` is a panic.
  unfoldable pub kfree : ℕ → Kmem → Option Kmem
  kfree pa k =
      if not (pa % pgsize == 0) || (ltb pa end || leb phystop pa)
      then none
      else some (record k { mem = update (fill pa bytes_of_1 k.mem) pa k.freelist; freelist = pa })

  -- The loop of `freerange` at `p`, on fuel; `none` is a panic, or that the fuel has run out.
  unfoldable pub free_loop : ℕ → ℕ → ℕ → Kmem → Option Kmem
  free_loop zero p pa_end k = none
  free_loop (suc fuel) p pa_end k = elim (leb (p + pgsize) pa_end) [
    | true ↦ kfree p k >>= λ k1. free_loop fuel (p + pgsize) pa_end k1
    | false ↦ some k
  ]

  unfoldable pub freerange : ℕ → ℕ → Kmem → Option Kmem
  freerange pa_start pa_end k = free_loop (suc (pa_end / pgsize)) (round_up pa_start) pa_end k

  unfoldable pub kinit : Kmem → Option Kmem
  kinit k = freerange end phystop k

-- The address of a page, or 0.
unfoldable pub kalloc : Kmem → ℕ × Kmem
kalloc k =
    let r = k.freelist in
    if r == 0 then (r, k) else (r, record { freelist = k.mem r; mem = fill r bytes_of_5 k.mem })
