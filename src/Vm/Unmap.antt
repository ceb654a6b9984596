-- ===== src/Vm/Unmap.antt =====
-- `uvmunmap` of kernel/vm.c: the entries of a range of pages go, and the pages are freed.
use jklnkhbv.Base.{
  ℕ, zero, suc, ◌+◌, ◌*◌, ◌/◌, ◌%◌, ◌^◌, ◌<◌, ◌≤◌, ◌≡◌, ◌≢◌, ◌⊎◌, inl, inr, refl, sym, ap, ◌∙◌,
  subst, Bool, true, false, none, some, List, ◌∷◌, update, if◌then◌else◌, arith, Bool-cases, ◌==◌,
  ltb, leb, ◌&&◌,
}
use jklnkhbv.Proc.{pgsize}
use jklnkhbv.Kalloc.{Kmem, kfree}
use jklnkhbv.Kalloc.Pages.{IsPage, Elsewhere, kfree_lem}
use jklnkhbv.Vm.{maxva, is_valid, pte2pa, walk, unmap_entry, unmap_loop, uvmunmap}
use jklnkhbv.Vm.Tree.{Owns, Owns-aligned, IsTree-same, Owns-same, lookup-same, SameTables}
use jklnkhbv.Vm.Cell.{IsCell, IsCell-same, IsCell-lookup, write_lem}
use jklnkhbv.Vm.Space.{In}
use jklnkhbv.Vm.Walk.{find_lem, not_in→All}
use jklnkhbv.Vm.Map.{entry_at, Space, written-Space, same_page_lem}

module _ (end : ℕ) (low : 0 < end) (table : ℕ) where
  -- A page that belongs neither to the page table nor to the free ones.
  abbrev pub IsOther : ℕ → Kmem → List ℕ → Type 0
  IsOther page k pages = IsPage end page × (¬ Owns k.mem 2 table page) × (¬ In page pages)

  module _ (page : ℕ) (k k' : Kmem) (pages : List ℕ) (s : Space end low table k pages)
      (other : IsOther page k pages) (same : Elsewhere end low page k.mem k'.mem) where
    tables_same : SameTables k.mem k'.mem 2 table
    tables_same q o i lt =
        let al = Owns-aligned k.mem 2 table q s.tree o in
        let ne : q ≢ page = λ e. other.1 (subst (Owns k.mem 2 table) e o) in
        same (q + 8 * i) (ground (arith, al, ne, other.0.0, lt))

  pub freed-Space :
      (page : ℕ) (k : Kmem) (pages : List ℕ)
      → Space end low table k pages
      → IsOther page k pages
      → (k' : Kmem) × (kfree end page k ≡ some k')
        × Space end low table k' (page ∷ pages)
        × SameTables k.mem k'.mem 2 table
  freed-Space page k pages s other =
      elim (kfree_lem end low k pages page s.frees (not_in→All page pages other.2)) [
        | inr (bad, e) ↦ absurd (bad other.0)
        | inl (ok, (k', e, f, same)) ↦
            let agree = tables_same page k k' pages s other same in
            (
              k',
              e,
              record {
                tree = IsTree-same k.mem k'.mem 2 table agree s.tree;
                frees = f;
                apart = λ q o i.
                    let o1 = (Owns-same k.mem k'.mem 2 table q agree).0 o in
                    elim i [
                      | inl e2 ↦ other.1 (subst (Owns k.mem 2 table) e2 o1)
                      | inr i2 ↦ s.apart q o1 i2
                    ];
              },
              agree,
            )
      ]

  abbrev pub after_free : Bool → ℕ → List ℕ → List ℕ
  after_free do_free page pages = if do_free then page ∷ pages else pages

  -- The rest of a round, once the page has been freed or not.
  cleared_entry :
      (a pte : ℕ) (k : Kmem) (pages : List ℕ)
      → Space end low table k pages
      → a < maxva
      → IsCell k.mem 2 a table pte
      → Space end low table (record k { mem = update k.mem pte 0 }) pages
        × ((va : ℕ)
            → va < maxva
            → entry_at (record k { mem = update k.mem pte 0 }) table va
              ≡ (if a / pgsize == va / pgsize then 0 else entry_at k table va))
  cleared_entry a pte k pages s lt c = (
    written-Space end low table a pte 0 k pages s c,
    λ va h.
        let w = write_lem k.mem 2 a table pte 0 s.tree c in
        ground (arith, w.reads va, same_page_lem a va lt h),
  )

  -- A page that `uvmunmap` takes the entry of: a leaf, and where it frees the page, one that can be.
  abbrev pub IsLeaf : Bool → ℕ → Kmem → List ℕ → Type 0
  IsLeaf do_free w k pages =
      (is_valid w ≡ true) × (w % 2 ^ 10 ≢ 1) × (do_free ≡ true → IsOther (pte2pa w) k pages)

  pub record Unmaps (do_free : Bool) (a : ℕ) (k : Kmem) (pages : List ℕ) (k' : Kmem) : Type 0 where
    pub space : Space end low table k' (after_free do_free (pte2pa (entry_at k table a)) pages)
    pub owns : (page : ℕ) → Owns k'.mem 2 table page → Owns k.mem 2 table page
    pub reads :
        (va : ℕ)
        → va < maxva
        → entry_at k' table va ≡ (if a / pgsize == va / pgsize then 0 else entry_at k table va)

  unmap_found :
      (do_free : Bool) (a pte : ℕ) (k : Kmem) (pages : List ℕ)
      → Space end low table k pages
      → a < maxva
      → IsLeaf do_free (entry_at k table a) k pages
      → IsCell k.mem 2 a table pte
      → (k' : Kmem) × (unmap_entry end do_free (some (some pte, k)) ≡ some k')
        × Unmaps do_free a k pages k'
  unfolding unmap_entry
  unmap_found false a pte k pages s lt l c =
      let at : k.mem pte ≡ entry_at k table a = sym (IsCell-lookup k.mem 2 a table pte c) in
      let on : is_valid (k.mem pte) ≡ true = rw at l.0 in
      let leaf : (k.mem pte % 2 ^ 10 == 1) ≡ false = rw at (ground (arith, l.1)) in
      let (space, reads) = cleared_entry a pte k pages s lt c in
      (
        record k { mem = update k.mem pte 0 },
        rw (on, leaf) refl,
        record {
          space = space;
          owns = (write_lem k.mem 2 a table pte 0 s.tree c).owns;
          reads = reads;
        },
      )
  unmap_found true a pte k pages s lt l c =
      let at : k.mem pte ≡ entry_at k table a = sym (IsCell-lookup k.mem 2 a table pte c) in
      let on : is_valid (k.mem pte) ≡ true = rw at l.0 in
      let leaf : (k.mem pte % 2 ^ 10 == 1) ≡ false = rw at (ground (arith, l.1)) in
      let page : ℕ = pte2pa (entry_at k table a) in
      let (k1, e, s1, agree) = freed-Space page k pages s (l.2 refl) in
      let c1 = IsCell-same k.mem k1.mem 2 a table pte agree c in
      let (space, reads) = cleared_entry a pte k1 (page ∷ pages) s1 lt c1 in
      (
        record k1 { mem = update k1.mem pte 0 },
        rw (on, leaf, at, e) refl,
        record {
          space = space;
          owns = λ q o.
              (Owns-same k.mem k1.mem 2 table q agree).0
                ((write_lem k1.mem 2 a table pte 0 s1.tree c1).owns q o);
          reads = λ va h.
              reads va h
              ∙ ap (λ w. if a / pgsize == va / pgsize then 0 else w)
                  (lookup-same k.mem k1.mem 2 table va agree);
        },
      )

  unmap_entry_lem :
      (do_free : Bool) (a : ℕ) (k : Kmem) (pages : List ℕ)
      → Space end low table k pages
      → a < maxva
      → IsLeaf do_free (entry_at k table a) k pages
      → (k' : Kmem) × (unmap_entry end do_free (walk table a false k) ≡ some k')
        × Unmaps do_free a k pages k'
  unfolding walk
  unmap_entry_lem do_free a k pages s lt l =
      let inside : leb maxva a ≡ false = ground (arith, lt) in
      elim (find_lem 2 a table k) [
        | inl (e, z) ↦ absurd (ground (arith, z, l.0))
        | inr (pte, e, c) ↦
            let (k', e', u) = unmap_found do_free a pte k pages s lt l c in
            (k', rw (inside, e) e', u)
      ]

  -- The entries of `n` pages from `a` on are leaves, of different pages.
  pub record Leaves (do_free : Bool) (n a : ℕ) (k : Kmem) (pages : List ℕ) : Type 0 where
    pub leaf : (j : ℕ) → j < n → IsLeaf do_free (entry_at k table (a + j * pgsize)) k pages
    pub distinct :
        do_free ≡ true
        → (i j : ℕ) → i < n
        → j < n
        → pte2pa (entry_at k table (a + i * pgsize)) ≡ pte2pa (entry_at k table (a + j * pgsize))
        → i ≡ j

  -- The free pages once the pages behind `n` entries from `a` on have been freed.
  abbrev pub freed : Bool → ℕ → ℕ → Kmem → List ℕ → List ℕ
  freed do_free zero a k pages = pages
  freed do_free (suc n) a k pages =
      freed do_free n (a + pgsize) k (after_free do_free (pte2pa (entry_at k table a)) pages)

  freed_same :
      (do_free : Bool) (n a : ℕ) (k k' : Kmem) (pages : List ℕ)
      → ((j : ℕ) → j < n → entry_at k' table (a + j * pgsize) ≡ entry_at k table (a + j * pgsize))
      → freed do_free n a k' pages ≡ freed do_free n a k pages
  freed_same do_free zero a k k' pages e = refl
  freed_same do_free (suc n) a k k' pages e =
      let start : a + 0 * pgsize ≡ a = omega arith in
      let here : entry_at k' table a ≡ entry_at k table a =
        subst (λ b. entry_at k' table b ≡ entry_at k table b) start (e 0 (omega arith)) in
      let later : (j : ℕ)
          → j < n
          → entry_at k' table (a + pgsize + j * pgsize)
            ≡ entry_at k table (a + pgsize + j * pgsize) =
        λ j h.
          let next : a + suc j * pgsize ≡ a + pgsize + j * pgsize = omega arith in
          subst (λ b. entry_at k' table b ≡ entry_at k table b) next
            (e (suc j) (omega (arith, h))) in
      freed_same do_free n (a + pgsize) k k'
        (after_free do_free (pte2pa (entry_at k' table a)) pages) later
      ∙ ap (λ w. freed do_free n (a + pgsize) k (after_free do_free (pte2pa w) pages)) here

  module _ (do_free : Bool) (n a : ℕ) (k k' : Kmem) (pages : List ℕ)
      (v : Leaves do_free (suc n) a k pages) (u : Unmaps do_free a k pages k') (al : a % pgsize ≡ 0)
      (fits : a + suc n * pgsize ≤ maxva) where
    kept_entry :
        (j : ℕ)
        → j < n
        → entry_at k' table (a + pgsize + j * pgsize) ≡ entry_at k table (a + suc j * pgsize)
    kept_entry j h =
        let at : a + pgsize + j * pgsize ≡ a + suc j * pgsize = omega arith in
        let below : a + suc j * pgsize < maxva = omega (arith, h, fits) in
        let away : (a / pgsize == (a + suc j * pgsize) / pgsize) ≡ false = ground (arith, al) in
        rw at (u.reads (a + suc j * pgsize) below ∙ rw away refl)

    rest_Other :
        (j : ℕ)
        → j < n
        → do_free ≡ true
        → IsOther
            (pte2pa (entry_at k table (a + suc j * pgsize)))
            k'
            (after_free do_free (pte2pa (entry_at k table a)) pages)
    rest_Other j h on =
        let (ok, unowned, not_in) = (v.leaf (suc j) (omega (arith, h))).2 on in
        let start : a + 0 * pgsize ≡ a = omega arith in
        rw on (
          ok,
          (λ o. unowned (u.owns (pte2pa (entry_at k table (a + suc j * pgsize))) o)),
          λ i. elim i [
            | inl e ↦
                let clash : suc j ≡ 0 =
                  v.distinct on (suc j) 0 (omega (arith, h)) (omega arith)
                    (e ∙ ap (λ b. pte2pa (entry_at k table b)) (sym start)) in
                absurd (omega (arith, clash))
            | inr i' ↦ not_in i'
          ],
        )

    rest_Leaves :
        Leaves do_free n (a + pgsize) k' (after_free do_free (pte2pa (entry_at k table a)) pages)
    rest_Leaves = record {
      leaf = λ j h.
          let l = v.leaf (suc j) (omega (arith, h)) in
          rw (kept_entry j h) (l.0, l.1, rest_Other j h);
      distinct = λ on i j hi hj e.
          let same =
            v.distinct on (suc i) (suc j) (omega (arith, hi)) (omega (arith, hj))
              (ap pte2pa (sym (kept_entry i hi)) ∙ e ∙ ap pte2pa (kept_entry j hj)) in
          omega (arith, same);
    }

  unmap_loop_lem :
      (do_free : Bool) (n a : ℕ) (k : Kmem) (pages : List ℕ)
      → Space end low table k pages
      → a % pgsize ≡ 0
      → a + n * pgsize ≤ maxva
      → Leaves do_free n a k pages
      → (k' : Kmem) × (unmap_loop end do_free table n a k ≡ some k')
        × Space end low table k' (freed do_free n a k pages)
        × ((va : ℕ)
            → va < maxva
            → entry_at k' table va
              ≡ (if leb a va && ltb va (a + n * pgsize) then 0 else entry_at k table va))
  unfolding unmap_loop
  unmap_loop_lem do_free zero a k pages s al fits v = (k, refl, s, λ va h. ground arith)
  unmap_loop_lem do_free (suc n) a k pages s al fits v =
      let start : a + 0 * pgsize ≡ a = omega arith in
      let l : IsLeaf do_free (entry_at k table a) k pages =
        subst (λ b. IsLeaf do_free (entry_at k table b) k pages) start (v.leaf 0 (omega arith)) in
      let (k1, e, u) = unmap_entry_lem do_free a k pages s (omega (arith, fits)) l in
      let pages1 = after_free do_free (pte2pa (entry_at k table a)) pages in
      let (k2, e2, s2, reads) =
        unmap_loop_lem do_free n (a + pgsize) k1 pages1 u.space (omega (arith, al))
          (omega (arith, fits)) (rest_Leaves do_free n a k k1 pages v u al fits) in
      let same = freed_same do_free n (a + pgsize) k k1 pages1 (λ j h.
        let at : a + suc j * pgsize ≡ a + pgsize + j * pgsize = omega arith in
        kept_entry do_free n a k k1 pages v u al fits j h ∙ ap (entry_at k table) at) in
      (
        k2,
        rw e e2,
        subst (Space end low table k2) same s2,
        λ va h. ground (arith, reads va h, u.reads va h, al),
      )

  -- `uvmunmap` of `npages` pages from `va` on, which is a multiple of the page size, below MAXVA,
  -- on a page table that shares no page with itself or the free ones. Where every page of the range
  -- has an entry that is a leaf, and, if the pages are to be freed, they are pages of the allocator,
  -- different from each other, from the tables and from the free ones, it comes to its end without a
  -- panic: the entries of the range are 0, all others stay, and the free pages are those before and,
  -- if asked for, those that were mapped. Where `va` is no multiple of the page size it panics.
  pub uvmunmap_lem :
      (va npages : ℕ) (do_free : Bool) (k : Kmem) (pages : List ℕ)
      → Space end low table k pages
      → va + npages * pgsize ≤ maxva
      → Leaves do_free npages va k pages
      → ((va % pgsize ≢ 0) × (uvmunmap end table va npages do_free k ≡ none))
        ⊎ ((k' : Kmem) × (uvmunmap end table va npages do_free k ≡ some k')
            × Space end low table k' (freed do_free npages va k pages)
            × ((addr : ℕ)
                → addr < maxva
                → entry_at k' table addr ≡ (
                    if leb va addr && ltb addr (va + npages * pgsize)
                    then 0
                    else entry_at k table addr)))
  unfolding uvmunmap
  uvmunmap_lem va npages do_free k pages s fits v = elim (Bool-cases (va % pgsize == 0)) [
    | inr off ↦ inl (ground (arith, off), rw off refl)
    | inl on ↦
        let (k', e, s', reads) =
          unmap_loop_lem do_free npages va k pages s (ground (arith, on)) fits v in
        inr (k', rw on e, s', reads)
  ]
