-- ===== src/Vm/Map.antt =====
-- `mappages` of kernel/vm.c against the map from pages to entries that a page table stands for.
use jklnkhbv.Base.{
  ℕ, zero, suc, ◌+◌, ◌-◌, ◌*◌, ◌/◌, ◌%◌, ◌^◌, ◌<◌, ◌≤◌, ◌≡◌, ◌⊎◌, inl, inr, sym, ◌∙◌, subst, true,
  false, Option, none, some, List, [], update, if◌then◌else◌, arith, ◌==◌, ltb, leb, ◌&&◌,
}
use jklnkhbv.Proc.{pgsize}
use jklnkhbv.Kalloc.{Kmem}
use jklnkhbv.Kalloc.Pages.{Frees-Elsewhere}
use jklnkhbv.Vm.{
  px, maxva, is_valid, walk, leaf, Mapping, mapped, short, crash, then_map, map_entry, map_loop,
  mappages, add64, round_down,
}
use jklnkhbv.Vm.Tree.{lookup, Owns, Owns-aligned, px-lt}
use jklnkhbv.Vm.Cell.{IsCell, same_page, IsCell-owned, IsCell-lookup, write_lem}
use jklnkhbv.Vm.Space.{In, IsSpace, Grown}
use jklnkhbv.Vm.Walk.{walk_from_lem, not_in→All, Result}

-- The entry of a page table for an address.
abbrev pub entry_at : Kmem → ℕ → ℕ → ℕ
entry_at k table va = lookup k.mem 2 va table

-- Below MAXVA the indices of an address tell its page.
pub same_page_lem :
    (va va' : ℕ) → va < maxva → va' < maxva → same_page 2 va va' ≡ (va / pgsize == va' / pgsize)
unfolding same_page px
same_page_lem va va' lt lt' = ground (arith, lt, lt')

-- None of `n` pages from `a` on has a valid entry.
abbrev pub AllFree : ℕ → ℕ → ℕ → Kmem → Type 0
AllFree table n a k =
    (va : ℕ) → a ≤ va → va < a + n * pgsize → is_valid (entry_at k table va) ≡ false

-- The number of pages after the first that `size` bytes from `va` on are in.
abbrev pub further : ℕ → ℕ → ℕ
further va size = (va + size - 1) / pgsize - va / pgsize

module _ (end : ℕ) (low : 0 < end) (table : ℕ) where
  abbrev pub Space : Kmem → List ℕ → Type 0
  Space k pages = IsSpace end low 2 table k pages

  pub written-Space :
      (va a v : ℕ) (k : Kmem) (pages : List ℕ)
      → Space k pages
      → IsCell k.mem 2 va table a
      → Space (record k { mem = update k.mem a v }) pages
  written-Space va a v k pages s c =
      let w = write_lem k.mem 2 va table a v s.tree c in
      let (page, o, e) = IsCell-owned k.mem 2 va table a c in
      let al = Owns-aligned k.mem 2 table page s.tree o in
      record {
        tree = w.tree;
        frees =
            Frees-Elsewhere end low page k (update k.mem a v) pages al
              (λ b out. ground (arith, e, out, px-lt 0 va)) (not_in→All page pages (s.apart page o))
              s.frees;
        apart = λ q o'. s.apart q (w.owns q o');
      }

  -- From `k` to `k'`, `n` pages from `a` on have been given entries, to the pages from `pa` on.
  pub record Maps (n a pa perm : ℕ) (k : Kmem) (pages : List ℕ) (k' : Kmem) (pages' : List ℕ)
      : Type 0 where
    pub space : Space k' pages'
    pub taken : (page : ℕ) → In page pages' → In page pages
    pub owns : (page : ℕ) → Owns k'.mem 2 table page → Owns k.mem 2 table page ⊎ In page pages
    pub reads :
        (va : ℕ)
        → va < maxva
        → entry_at k' table va ≡ (
            if leb a va && ltb va (a + n * pgsize)
            then leaf (pa + (va - a) / pgsize * pgsize) perm
            else entry_at k table va)

  -- What `mappages` comes to, for `n` pages: all are mapped, or memory has run out after some.
  abbrev pub MapOutcome : ℕ → ℕ → ℕ → ℕ → Kmem → List ℕ → Mapping → Type 0
  MapOutcome n a pa perm k pages (mapped k') =
      (pages' : List ℕ) × Maps n a pa perm k pages k' pages'
  MapOutcome n a pa perm k pages (short k') = (m : ℕ) × (m < n) × Maps m a pa perm k pages k' []
  MapOutcome n a pa perm k pages crash = ⊥

  module _ (perm : ℕ) where
    no_pages :
        (a pa : ℕ) (k k' : Kmem) (pages pages' : List ℕ)
        → Grown end low 2 table k pages k' pages'
        → Maps 0 a pa perm k pages k' pages'
    no_pages a pa k k' pages pages' g = record {
      space = g.space;
      taken = g.taken;
      owns = g.owns;
      reads = λ va h. ground (arith, g.reads va);
    }

    after_walk :
        (a pa : ℕ) (k k1 : Kmem) (pages pages1 : List ℕ) (r : Option ℕ)
        → a % pgsize ≡ 0
        → a < maxva
        → is_valid (entry_at k table a) ≡ false
        → Grown end low 2 table k pages k1 pages1
        → Result end low 2 a table k1 pages1 r
        → MapOutcome 1 a pa perm k pages (map_entry pa perm (some (r, k1)))
    unfolding map_entry
    after_walk a pa k k1 pages pages1 none al lt free g res = (
      0,
      omega arith,
      subst (Maps 0 a pa perm k pages k1) res (no_pages a pa k k1 pages pages1 g),
    )
    after_walk a pa k k1 pages pages1 (some pte) al lt free g c =
        let now : k1.mem pte ≡ entry_at k table a =
          sym (IsCell-lookup k1.mem 2 a table pte c) ∙ g.reads a in
        let off : is_valid (k1.mem pte) ≡ false = rw now free in
        let k2 : Kmem = record k1 { mem = update k1.mem pte (leaf pa perm) } in
        let w = write_lem k1.mem 2 a table pte (leaf pa perm) g.space.tree c in
        let m : Maps 1 a pa perm k pages k2 pages1 = record {
          space = written-Space a pte (leaf pa perm) k1 pages1 g.space c;
          taken = g.taken;
          owns = λ page o. g.owns page (w.owns page o);
          reads = λ va h. ground (arith, w.reads va, same_page_lem a va lt h, g.reads va, al);
        } in
        rw off (pages1, m)

    entry_lem :
        (a pa : ℕ) (k : Kmem) (pages : List ℕ)
        → Space k pages
        → a % pgsize ≡ 0
        → a < maxva
        → is_valid (entry_at k table a) ≡ false
        → MapOutcome 1 a pa perm k pages (map_entry pa perm (walk table a true k))
    unfolding walk
    entry_lem a pa k pages s al lt free =
        let inside : leb maxva a ≡ false = ground (arith, lt) in
        let (r, k1, pages1, e, g, res) = walk_from_lem end low 2 a table k pages s in
        rw (inside, e) (after_walk a pa k k1 pages pages1 r al lt free g res)

    joined :
        (n a pa : ℕ) (k k1 k2 : Kmem) (pages pages1 pages2 : List ℕ)
        → Maps 1 a pa perm k pages k1 pages1
        → Maps n (a + pgsize) (pa + pgsize) perm k1 pages1 k2 pages2
        → Maps (suc n) a pa perm k pages k2 pages2
    joined n a pa k k1 k2 pages pages1 pages2 m1 m2 = record {
      space = m2.space;
      taken = λ page i. m1.taken page (m2.taken page i);
      owns = λ page o. elim (m2.owns page o) [
        | inl o1 ↦ m1.owns page o1
        | inr i ↦ inr (m1.taken page i)
      ];
      reads = λ va h.
          let step : pgsize ≤ va - a
              → (va - a) / pgsize * pgsize ≡ pgsize + (va - (a + pgsize)) / pgsize * pgsize =
            λ le. omega (arith, le) in
          ground (arith, m1.reads va h, m2.reads va h, step);
    }

    -- The rest of the loop, once a page has been mapped.
    joined_outcome :
        (n a pa : ℕ) (k k1 : Kmem) (pages pages1 : List ℕ) (r : Mapping)
        → Maps 1 a pa perm k pages k1 pages1
        → MapOutcome n (a + pgsize) (pa + pgsize) perm k1 pages1 r
        → MapOutcome (suc n) a pa perm k pages r
    joined_outcome n a pa k k1 pages pages1 (mapped k2) m (pages2, m2) =
        (pages2, joined n a pa k k1 k2 pages pages1 pages2 m m2)
    joined_outcome n a pa k k1 pages pages1 (short k2) m (j, lt, m2) =
        (suc j, omega (arith, lt), joined j a pa k k1 k2 pages pages1 [] m m2)
    joined_outcome n a pa k k1 pages pages1 crash m h = h

    then_outcome :
        (n a pa : ℕ) (k : Kmem) (pages : List ℕ) (r : Mapping) (next : Kmem → Mapping)
        → MapOutcome 1 a pa perm k pages r
        → ((k1 : Kmem) (pages1 : List ℕ)
            → Maps 1 a pa perm k pages k1 pages1
            → MapOutcome (suc n) a pa perm k pages (next k1))
        → MapOutcome (suc n) a pa perm k pages (then_map r next)
    then_outcome n a pa k pages (mapped k1) next (pages1, m) f = f k1 pages1 m
    then_outcome n a pa k pages (short k1) next (j, lt, m) f = (j, omega (arith, lt), m)
    then_outcome n a pa k pages crash next h f = h

    still_free :
        (a pa n : ℕ) (k k1 : Kmem) (pages pages1 : List ℕ)
        → Maps 1 a pa perm k pages k1 pages1
        → a + suc (suc n) * pgsize ≤ maxva
        → (va : ℕ) → a + pgsize ≤ va
        → va < a + pgsize + suc n * pgsize
        → is_valid (entry_at k table va) ≡ false
        → is_valid (entry_at k1 table va) ≡ false
    still_free a pa n k k1 pages pages1 m fits va lo hi free =
        let out : ltb va (a + 1 * pgsize) ≡ false = ground (arith, lo) in
        let in_range : va < maxva = omega (arith, hi, fits) in
        ground (arith, m.reads va in_range, out, free)

    loop_lem :
        (fuel n a pa : ℕ) (k : Kmem) (pages : List ℕ)
        → Space k pages
        → a % pgsize ≡ 0
        → a + suc n * pgsize ≤ maxva
        → pa + suc n * pgsize < 2 ^ 64
        → n < fuel
        → AllFree table (suc n) a k
        → MapOutcome (suc n) a pa perm k pages (map_loop fuel table a (a + n * pgsize) pa perm k)
    unfolding map_loop
    loop_lem zero n a pa k pages s al fits small lt free = absurd (omega (arith, lt))
    loop_lem (suc fuel) zero a pa k pages s al fits small lt free =
        let last : (a == a + 0 * pgsize) ≡ true = ground arith in
        then_outcome zero a pa k pages (map_entry pa perm (walk table a true k))
          (λ k1. elim (a == a + 0 * pgsize) [
            | true ↦ mapped k1
            | false ↦
                map_loop fuel table (add64 a pgsize) (a + 0 * pgsize) (add64 pa pgsize) perm k1
          ])
          (entry_lem a pa k pages s al (omega (arith, fits)) (free a (omega arith) (omega arith)))
          (λ k1 pages1 m. rw last (pages1, m))
    loop_lem (suc fuel) (suc n) a pa k pages s al fits small lt free =
        let more : (a == a + suc n * pgsize) ≡ false = ground arith in
        then_outcome (suc n) a pa k pages (map_entry pa perm (walk table a true k))
          (λ k1. elim (a == a + suc n * pgsize) [
            | true ↦ mapped k1
            | false ↦
                map_loop fuel table (add64 a pgsize) (a + suc n * pgsize) (add64 pa pgsize) perm k1
          ])
          (entry_lem a pa k pages s al (omega (arith, fits)) (free a (omega arith) (omega arith)))
          (λ k1 pages1 m.
            let on : add64 a pgsize ≡ a + pgsize = omega (arith, fits) in
            let on' : add64 pa pgsize ≡ pa + pgsize = omega (arith, small) in
            let end' : a + suc n * pgsize ≡ a + pgsize + n * pgsize = omega arith in
            rw (more, on, on', end')
              (joined_outcome (suc n) a pa k k1 pages pages1
                (map_loop fuel table (a + pgsize) (a + pgsize + n * pgsize) (pa + pgsize) perm k1) m
                (loop_lem fuel n (a + pgsize) (pa + pgsize) k1 pages1 m.space (omega (arith, al))
                  (omega (arith, fits)) (omega (arith, small)) (omega (arith, lt))
                  (λ va lo hi.
                    still_free a pa n k k1 pages pages1 m fits va lo hi
                      (free va (omega (arith, lo)) (omega (arith, hi)))))))

    -- On a page table that shares no page with itself or the free ones: `mappages` of a range below
    -- MAXVA, of which no page has a valid entry, comes to its end without a panic. If it returns 0,
    -- the pages of the range have entries for the pages from `pa` on, in order, with these flags. If
    -- it returns -1, no page is free any more, and that holds of the first pages only, fewer than
    -- all. All other entries stay, and the page table and the free pages are as before.
    pub mappages_lem :
        (va size pa : ℕ) (k : Kmem) (pages : List ℕ)
        → Space k pages
        → 0 < size
        → va + size ≤ maxva
        → pa + size + pgsize < 2 ^ 64 - pgsize
        → AllFree table (suc (further va size)) (round_down va) k
        → MapOutcome
            (suc (further va size))
            (round_down va)
            pa
            perm
            k
            pages
            (mappages table va size pa perm k)
    unfolding mappages
    mappages_lem va size pa k pages s pos fits small free =
        let n : ℕ = further va size in
        let some_bytes : (size == 0) ≡ false = ground (arith, pos) in
        let last : round_down ((va + size + 2 ^ 64 - 1) % 2 ^ 64) ≡ round_down va + n * pgsize =
          omega (arith, pos, fits) in
        rw (some_bytes, last)
          (loop_lem (suc (maxva / pgsize)) n (round_down va) pa k pages s (omega arith)
            (omega (arith, pos, fits)) (omega (arith, pos, small)) (omega (arith, fits)) free)
