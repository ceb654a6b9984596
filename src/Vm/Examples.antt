-- ===== src/Vm/Examples.antt =====
-- Tests of the page tables, and a concrete table for their theorems.
use jklnkhbv.Base.{
  negsuc, suc, sym, subst, ◌≢◌, ◌⊎◌, ◌≤◌, ℕ, ◌+◌, ◌-◌, ◌*◌, ◌/◌, ◌%◌, ◌<◌, ◌≡◌, refl, inl, inr,
  Option, true, none, some, List, [], ◌∷◌, arith, if◌then◌else◌, ltb, leb, ◌&&◌, ◌==◌,
}
use jklnkhbv.Proc.{pgsize}
use jklnkhbv.Kalloc.{Kmem, kalloc, kfree, round_up}
use jklnkhbv.Kalloc.Pages.{Frees}
use jklnkhbv.Vm.{
  px, walk, walk_from, descend, walkaddr, uvmunmap, leaf, pte2pa, map_entry, map_loop, mappages,
  Mapping, mapped, short, crash, maxva, round_down,
}
use jklnkhbv.Vm.Tree.{Owns}
use jklnkhbv.Vm.Grow.{blank-IsTree, blank_owns, blank_lookup}
use jklnkhbv.Vm.Space.{In}
use jklnkhbv.Vm.Unmap.{Leaves, freed, uvmunmap_lem}
use jklnkhbv.Vm.Map.{Maps, entry_at, Space, AllFree, further, MapOutcome, mappages_lem}
use jklnkhbv.Vm.Resize.{uvmdealloc, uvmalloc, alloc_loop, keep_page, uvmdealloc_lem}
use jklnkhbv.Vm.Resize.Growproc.{growproc}
use jklnkhbv.Proc.Fork.{val}
use jklnkhbv.Vm.Address.{walkaddr-mappages}

abbrev end : ℕ
end = 0x80020000

low : 0 < end
low = omega arith

abbrev root : ℕ
root = 0x80070000

-- An empty table, and two free pages.
abbrev memory : Kmem
memory = record { freelist = 0x80030000; mem = λ a. if a == 0x80030000 then 0x80040000 else 0 }

abbrev free_pages : List ℕ
free_pages = 0x80030000 ∷ 0x80040000 ∷ []

free_pages-Frees : Frees end low memory free_pages
free_pages-Frees = record {
  links = (refl, (refl, refl));
  differ = ((omega arith, tt), (tt, tt));
  pages_ok = ((refl, omega arith, omega arith), ((refl, omega arith, omega arith), tt));
}

blank : (i : ℕ) → i < 512 → memory.mem (root + 8 * i) ≡ 0
blank i lt = ground (arith, lt)

root-Space : Space end low root memory free_pages
root-Space = record {
  tree = blank-IsTree memory.mem 2 root refl blank;
  frees = free_pages-Frees;
  apart = λ page o i.
      let e = blank_owns memory.mem 2 root page blank o in
      elim i [
        | inl e1 ↦ absurd (omega (arith, e, e1))
        | inr j ↦ elim j [ inl e2 ↦ absurd (omega (arith, e, e2)) | inr h ↦ h ]
      ];
}

nothing_there : AllFree root 2 0x3000 memory
nothing_there va lo hi = let e = blank_lookup memory.mem 2 va root blank in ground (arith, e)

-- Two pages, readable, writable and for the user.
mappages_lem_example :
    MapOutcome end low root 2 0x3000 0x80050000 22 memory free_pages
      (mappages root 0x3010 0x1000 0x80050000 22 memory)
mappages_lem_example =
    mappages_lem end low root 22 0x3010 0x1000 0x80050000 memory free_pages root-Space (omega arith)
      (omega arith) (omega arith) nothing_there

abbrev kmem_of : Mapping → Kmem
kmem_of (mapped k) = k
kmem_of (short k) = k
kmem_of crash = memory

abbrev after : Kmem
after = kmem_of (mappages root 0x3010 0x1000 0x80050000 22 memory)

mappages_succeeds : mappages root 0x3010 0x1000 0x80050000 22 memory ≡ mapped after
unfolding mappages map_loop map_entry walk walk_from descend kalloc px
mappages_succeeds = refl

walkaddr-mappages_example : walkaddr root 0x4abc after ≡ (
    if leb (round_down 0x3010) 0x4abc
      && ltb 0x4abc (round_down 0x3010 + suc (further 0x3010 0x1000) * pgsize)
    then 0x80050000 + (0x4abc - round_down 0x3010) / pgsize * pgsize
    else walkaddr root 0x4abc memory)
walkaddr-mappages_example =
    walkaddr-mappages end low root 22 0x3010 0x1000 0x80050000 memory after free_pages root-Space
      (omega arith) (omega arith) (omega arith) nothing_there refl (omega arith) refl
      mappages_succeeds 0x4abc (omega arith)

outcome : (pages : List ℕ) × Maps end low root 2 0x3000 0x80050000 22 memory free_pages after pages
outcome =
    subst (MapOutcome end low root 2 0x3000 0x80050000 22 memory free_pages) mappages_succeeds
      mappages_lem_example

not_table : (page : ℕ) → page ≢ root → ¬ In page free_pages → ¬ Owns after.mem 2 root page
not_table page ne used o = elim (outcome.1.owns page o) [
  | inl o1 ↦ ne (sym (blank_owns memory.mem 2 root page blank o1))
  | inr i ↦ used i
]

entries :
    (j : ℕ) → j < 2 → entry_at after root (0x3000 + j * pgsize) ≡ leaf (0x80050000 + j * pgsize) 22
entries j h =
    let at = outcome.1.reads (0x3000 + j * pgsize) (omega (arith, h)) in ground (arith, at, h)

in_pages : (page : ℕ) → 0x80050000 ≤ page → ¬ In page free_pages
in_pages page le i = elim i [
  | inl e ↦ absurd (omega (arith, e, le))
  | inr j ↦ elim j [ inl e ↦ absurd (omega (arith, e, le)) | inr h ↦ h ]
]

frames :
    (j : ℕ) → j < 2 → pte2pa (entry_at after root (0x3000 + j * pgsize)) ≡ 0x80050000 + j * pgsize
frames j h = ground (arith, entries j h, h)

two-Leaves : Leaves end low root true 2 0x3000 after outcome.0
two-Leaves = record {
  leaf = λ j h.
      let e = frames j h in
      (
        ground (arith, entries j h, h),
        ground (arith, entries j h, h),
        λ on. rw e (
          (omega (arith, h), omega arith, omega (arith, h)),
          not_table (0x80050000 + j * pgsize) (λ e2. omega (arith, e2, h))
              (in_pages (0x80050000 + j * pgsize) (omega arith)),
          λ i.
              in_pages (0x80050000 + j * pgsize) (omega arith)
                (outcome.1.taken (0x80050000 + j * pgsize) i),
        ),
      );
  distinct = λ on i j hi hj e. omega (arith, e, frames i hi, frames j hj);
}

uvmunmap_lem_example :
    ((0x3000 % pgsize ≢ 0) × (uvmunmap end root 0x3000 2 true after ≡ none))
    ⊎ ((k : Kmem) × (uvmunmap end root 0x3000 2 true after ≡ some k)
        × Space end low root k (freed end low root true 2 0x3000 after outcome.0)
        × ((addr : ℕ)
            → addr < maxva
            → entry_at k root addr ≡ (
                if leb 0x3000 addr && ltb addr (0x3000 + 2 * pgsize)
                then 0
                else entry_at after root addr)))
uvmunmap_lem_example =
    uvmunmap_lem end low root 0x3000 2 true after outcome.0 outcome.1.space (omega arith) two-Leaves

-- Two pages at 0x3000, and a size of 0x2800 asked for.
uvmdealloc_lem_example :
    (k : Kmem) × (uvmdealloc end root 0x5000 0x2800 after
      ≡ some ((if leb 0x5000 0x2800 then 0x5000 else 0x2800), k))
    × Space end low root k (
        freed end low root true
          ((round_up 0x5000 - round_up 0x2800) / pgsize)
          (round_up 0x2800)
          after
          outcome.0)
    × ((va : ℕ)
        → va < maxva
        → entry_at k root va ≡ (
            if leb (round_up 0x2800) va && ltb va (round_up 0x5000)
            then 0
            else entry_at after root va))
uvmdealloc_lem_example =
    uvmdealloc_lem end low root 0x5000 0x2800 after outcome.0 outcome.1.space (omega arith)
      two-Leaves

-- An empty table, and four free pages.
abbrev roomy : Kmem
roomy = record {
  freelist = 0x80030000;
  mem = λ a.
      if a == 0x80030000
      then 0x80040000
      else if a == 0x80040000
      then 0x80050000
      else if a == 0x80050000
      then 0x80060000
      else 0;
}

abbrev four_pages : List ℕ
four_pages = 0x80030000 ∷ 0x80040000 ∷ 0x80050000 ∷ 0x80060000 ∷ []

abbrev size_of : Option (ℕ × ℕ × Kmem) → Option (ℕ × ℕ)
size_of none = none
size_of (some (size, heap, k)) = some (size, heap)

-- A page after the first 4096 bytes.
grows_by_page : size_of (uvmalloc end root 0x1000 0x1800 22 5 roomy) ≡ some (0x1800, 6)
unfolding uvmalloc alloc_loop keep_page kalloc mappages map_loop map_entry walk walk_from descend px
grows_by_page = refl

-- With two pages left, none is free for the second table, and the count has gone up.
memory_runs_out : size_of (uvmalloc end root 0x1000 0x1800 22 5 memory) ≡ some (0, 6)
unfolding uvmalloc alloc_loop keep_page kalloc mappages map_loop map_entry walk walk_from descend px
    kfree uvmdealloc
memory_runs_out = refl

-- A size below 0 is not taken, and the call succeeds.
below_zero : growproc end root (negsuc 0x1fff) 0x1000 5 roomy ≡ some (val 0, 0x1000, 5, roomy)
unfolding growproc uvmdealloc
below_zero = refl
