-- ===== src/Kalloc/Examples.antt =====
-- The theorems about kernel/kalloc.c at a kernel that ends at 0x80020000.
use jklnkhbv.Base.{ℕ, ◌<◌, ◌≡◌, true, some, List, arith}
use jklnkhbv.Kalloc.{Kmem, kinit}
use jklnkhbv.Kalloc.Pages.{IsPage, Frees}
use jklnkhbv.Kalloc.Start.{elem, kinit_lem}

abbrev kernel_end : ℕ
kernel_end = 0x80020000

low : 0 < kernel_end
low = omega arith

kinit_lem_example :
    (k : Kmem) × (pages : List ℕ) × (kinit kernel_end (record { freelist = 0; mem = λ a. 0 })
      ≡ some k)
    × Frees kernel_end low k pages
    × ((p : ℕ) → IsPage kernel_end p → elem p pages ≡ true)
kinit_lem_example = kinit_lem kernel_end low (λ a. 0) (omega arith)
