-- ===== src/Kalloc/Start.antt =====
-- `kinit` and `freerange` of kernel/kalloc.c: the fuel is enough, and every page is freed.
use jklnkhbv.Base.{
  ℕ, zero, suc, ◌+◌, ◌-◌, ◌*◌, ◌/◌, ◌%◌, ◌≤◌, ◌<◌, ◌≡◌, refl, Bool, true, false, some, List, [],
  ◌∷◌, All, All-map, ◌==◌, leb, ◌||◌, arith, inl, inr, Bool-cases,
}
use jklnkhbv.Proc.{pgsize}
use jklnkhbv.Kalloc.{Kmem, phystop, round_up, free_loop, freerange, kinit}
use jklnkhbv.Kalloc.Pages.{IsPage, Frees, kfree_lem}

-- `n` pages from `p` on, freed one after the other.
pub freed : ℕ → ℕ → List ℕ → List ℕ
freed zero p acc = acc
freed (suc n) p acc = freed n (p + pgsize) (p ∷ acc)

abbrev pub elem : ℕ → List ℕ → Bool
elem q [] = false
elem q (p ∷ ps) = q == p || elem q ps

elem-freed_acc : (n p q : ℕ) (acc : List ℕ) → elem q acc ≡ true → elem q (freed n p acc) ≡ true
unfolding freed
elem-freed_acc zero p q acc h = h
elem-freed_acc (suc n) p q acc h = elem-freed_acc n (p + pgsize) q (p ∷ acc) (ground arith)

elem-freed :
    (n p q : ℕ) (acc : List ℕ)
    → p % pgsize ≡ 0
    → q % pgsize ≡ 0
    → p ≤ q
    → q < p + n * pgsize
    → elem q (freed n p acc) ≡ true
unfolding freed
elem-freed zero p q acc ap_ aq le lt = absurd (omega arith)
elem-freed (suc n) p q acc ap_ aq le lt = elim (Bool-cases (q == p)) [
  | inl here ↦ elem-freed_acc n (p + pgsize) q (p ∷ acc) (ground (arith, here))
  | inr later ↦
      let past : p + pgsize ≤ q = ground (arith, later) in
      elem-freed n (p + pgsize) q (p ∷ acc) (omega arith) aq past (omega arith)
]

module _ (end : ℕ) (low : 0 < end) where
  free_loop_lem :
      (n fuel p pa_end : ℕ) (k : Kmem) (acc : List ℕ)
      → n < fuel
      → p % pgsize ≡ 0
      → end ≤ p
      → pa_end ≤ phystop
      → p + n * pgsize ≤ pa_end
      → pa_end < p + suc n * pgsize
      → Frees end low k acc
      → All (λ q. q < p) acc
      → (k' : Kmem) × (free_loop end fuel p pa_end k ≡ some k') × Frees end low k' (freed n p acc)
  unfolding free_loop freed
  free_loop_lem n zero p pa_end k acc f al le top lo hi v below = absurd (omega arith)
  free_loop_lem zero (suc fuel) p pa_end k acc f al le top lo hi v below =
      let stop : leb (p + pgsize) pa_end ≡ false = ground (arith, hi) in
      (k, rw (stop, free_loop) refl, v)
  free_loop_lem (suc n) (suc fuel) p pa_end k acc f al le top lo hi v below =
      let go_on : leb (p + pgsize) pa_end ≡ true = ground (arith, lo) in
      let page : IsPage end p = (al, le, omega arith) in
      elim (kfree_lem end low k acc p v (All-map (λ q h. omega arith) acc below)) [
        | inr (bad, _) ↦ absurd (bad page)
        | inl (_, (k1, e, v1, _)) ↦
            let (k2, e2, v2) =
              free_loop_lem n fuel (p + pgsize) pa_end k1 (p ∷ acc) (omega arith) (omega arith)
                (omega arith) top (omega arith) (omega arith) v1
                (omega arith, All-map (λ q h. omega arith) acc below) in
            (k2, rw (go_on, free_loop) (rw e e2), v2)
      ]

  -- From an empty list of free pages and a kernel that ends in memory, `kinit` comes to its end
  -- without a panic, and then the free pages are those between the end of the kernel and the end of
  -- memory, each one once.
  pub kinit_lem :
      (mem : ℕ → ℕ)
      → end ≤ phystop
      → (k : Kmem) × (pages : List ℕ) × (kinit end (record { freelist = 0; mem = mem }) ≡ some k)
        × Frees end low k pages
        × ((p : ℕ) → IsPage end p → elem p pages ≡ true)
  unfolding kinit freerange
  kinit_lem mem h =
      let p = round_up end in
      let n = (phystop - p) / pgsize in
      let (k, e, v) =
        free_loop_lem n (suc (phystop / pgsize)) p phystop (record { freelist = 0; mem = mem }) []
          (omega arith) (omega arith) (omega arith) (omega arith) (omega arith) (omega arith)
          (record { links = refl; differ = tt; pages_ok = tt }) tt in
      (
        k,
        freed n p [],
        e,
        v,
        λ q page.
            elem-freed n p q [] (omega arith) page.0 (omega (arith, page.0, page.1))
              (omega (arith, page.0, page.1, page.2)),
      )
