-- ===== src/Vm/Space.antt =====
-- A page table and the free pages, and the steps that take tables from these.
use jklnkhbv.Base.{
  ℕ, suc, ◌%◌, ◌<◌, ◌≡◌, ◌≢◌, ◌⊎◌, inl, inr, refl, sym, ◌∙◌, subst, List, [], ◌∷◌, arith,
  Bool-cases, ◌==◌,
}
use jklnkhbv.Proc.{pgsize}
use jklnkhbv.Kalloc.{Kmem}
use jklnkhbv.Kalloc.Pages.{Frees}
use jklnkhbv.Vm.{px, is_valid, pte2pa, entry}
use jklnkhbv.Vm.Tree.{
  child, Valid, Owns, IsTree, lookup, Agree, px-lt, SameTables, Owns-same, lookup-same, IsTree-same,
  Owns-root, Owns-aligned, IsTree-aligned, rebuild,
}

abbrev pub In : ℕ → List ℕ → Type 0
In p [] = ⊥
In p (q ∷ qs) = (p ≡ q) ⊎ In p qs

module _ (end : ℕ) (low : 0 < end) where
  -- A page table of this level, with the pages that are free.
  pub record IsSpace (level table : ℕ) (k : Kmem) (pages : List ℕ) : Type 0 where
    pub tree : IsTree k.mem level table
    pub frees : Frees end low k pages
    pub apart : (page : ℕ) → Owns k.mem level table page → ¬ In page pages

  -- Free pages have become tables, all else is the same, and so is what is looked up.
  pub record Grown (level table : ℕ) (k : Kmem) (pages : List ℕ) (k' : Kmem) (pages' : List ℕ)
      : Type 0 where
    pub space : IsSpace level table k' pages'
    pub taken : (page : ℕ) → In page pages' → In page pages
    pub owns :
        (page : ℕ) → Owns k'.mem level table page → Owns k.mem level table page ⊎ In page pages
    pub away :
        (page : ℕ)
        → page % pgsize ≡ 0
        → ¬ Owns k.mem level table page
        → ¬ In page pages
        → Agree k.mem k'.mem page
    pub reads : (va : ℕ) → lookup k'.mem level va table ≡ lookup k.mem level va table

  pub Grown-refl :
      (level table : ℕ) (k : Kmem) (pages : List ℕ)
      → IsSpace level table k pages
      → Grown level table k pages k pages
  Grown-refl level table k pages s = record {
    space = s;
    taken = λ page h. h;
    owns = λ page o. inl o;
    away = λ page al no_table used i lt. refl;
    reads = λ va. refl;
  }

  pub Grown-trans :
      (level table : ℕ) (k k1 k2 : Kmem) (pages pages1 pages2 : List ℕ)
      → Grown level table k pages k1 pages1
      → Grown level table k1 pages1 k2 pages2
      → Grown level table k pages k2 pages2
  Grown-trans level table k k1 k2 pages pages1 pages2 g h = record {
    space = h.space;
    taken = λ page i. g.taken page (h.taken page i);
    owns =
        λ page o. elim (h.owns page o) [ inl o1 ↦ g.owns page o1 | inr i ↦ inr (g.taken page i) ];
    away = λ page al no_table used i lt.
        h.away page al (λ o. elim (g.owns page o) [ inl o1 ↦ no_table o1 | inr t ↦ used t ])
          (λ t. used (g.taken page t)) i lt
        ∙ g.away page al no_table used i lt;
    reads = λ va. h.reads va ∙ g.reads va;
  }

  module _ (level table i0 : ℕ) (k k' : Kmem) (pages pages' : List ℕ)
      (s : IsSpace (suc level) table k pages) (c0 : Valid k.mem table i0)
      (g : Grown level (child k.mem table i0) k pages k' pages') where
    pub table_same : Agree k.mem k'.mem table
    unfolding IsTree
    table_same =
        g.away table (IsTree-aligned k.mem (suc level) table s.tree) (s.tree.2 i0 c0)
          (s.apart table (Owns-root k.mem (suc level) table))

    others_same :
        (i : ℕ) → Valid k.mem table i → i ≢ i0 → SameTables k.mem k'.mem level (child k.mem table i)
    unfolding IsTree Owns
    others_same i c ne q o =
        g.away q (Owns-aligned k.mem level (child k.mem table i) q (s.tree.1 i c) o)
          (λ o2. ne (s.tree.3 i i0 q c c0 o o2)) (s.apart q (inr (i, c, o)))

    trees : (i : ℕ) → Valid k.mem table i → IsTree k'.mem level (child k.mem table i)
    unfolding IsTree
    trees i c = elim (Bool-cases (i == i0)) [
      | inl e ↦
          let here : i0 ≡ i = ground (arith, e) in
          subst (λ j. IsTree k'.mem level (child k.mem table j)) here g.space.tree
      | inr ne ↦
          IsTree-same k.mem k'.mem level (child k.mem table i)
            (others_same i c (ground (arith, ne))) (s.tree.1 i c)
    ]

    -- A table behind an entry was there before, or is a new one behind the entry `i0`.
    owned :
        (i page : ℕ)
        → Valid k.mem table i
        → Owns k'.mem level (child k.mem table i) page
        → Owns k.mem level (child k.mem table i) page ⊎ ((i ≡ i0) × In page pages)
    owned i page c o = elim (Bool-cases (i == i0)) [
      | inl e ↦
          let here : i ≡ i0 = ground (arith, e) in
          elim (g.owns page (subst (λ j. Owns k'.mem level (child k.mem table j) page) here o)) [
            | inl o1 ↦ inl (subst (λ j. Owns k.mem level (child k.mem table j) page) (sym here) o1)
            | inr t ↦ inr (here, t)
          ]
      | inr ne ↦ inl (
          (Owns-same k.mem k'.mem level (child k.mem table i) page
              (others_same i c (ground (arith, ne)))).0
            o)
    ]

    not_free :
        (i page : ℕ)
        → Valid k.mem table i
        → Owns k'.mem level (child k.mem table i) page
        → ¬ In page pages'
    unfolding Owns
    not_free i page c o t = elim (Bool-cases (i == i0)) [
      | inl e ↦
          let here : i ≡ i0 = ground (arith, e) in
          g.space.apart page (subst (λ j. Owns k'.mem level (child k.mem table j) page) here o) t
      | inr ne ↦
          let o1 =
            (Owns-same k.mem k'.mem level (child k.mem table i) page
                (others_same i c (ground (arith, ne)))).0
              o in
          s.apart page (inr (i, c, o1)) (g.taken page t)
    ]

    before :
        (i page : ℕ)
        → Valid k'.mem table i
        → Owns k'.mem level (child k'.mem table i) page
        → Valid k.mem table i × Owns k'.mem level (child k.mem table i) page
    before i page c o = (
      (c.0, rw (table_same i c.0) at c.1),
      subst (λ w. Owns k'.mem level (pte2pa w) page) (table_same i c.0) o,
    )

    up_reads : (va : ℕ) → lookup k'.mem (suc level) va table ≡ lookup k.mem (suc level) va table
    unfolding lookup
    up_reads va =
        let i : ℕ = px (suc level) va in
        let at = table_same i (px-lt (suc level) va) in
        elim (Bool-cases (is_valid (k.mem (entry table (suc level) va)))) [
          | inr off ↦ rw (at, off) refl
          | inl c ↦ elim (Bool-cases (i == i0)) [
            | inl e ↦
                let here : i0 ≡ i = ground (arith, e) in
                rw (at, c)
                  (subst
                    (λ j.
                      lookup k'.mem level va (child k.mem table j)
                      ≡ lookup k.mem level va (child k.mem table j))
                    here (g.reads va))
            | inr ne ↦
                rw (at, c)
                  (lookup-same k.mem k'.mem level (child k.mem table i) va
                    (others_same i (px-lt (suc level) va, c) (ground (arith, ne))))
          ]
        ]

    -- The same for the table above.
    pub Grown-up : Grown (suc level) table k pages k' pages'
    unfolding Owns
    Grown-up = record {
      space = record {
        tree =
            rebuild k.mem k'.mem level table i0 (λ p. In p pages) table_same trees owned
              (λ page t o. s.apart page o t) s.tree;
        frees = g.space.frees;
        apart = λ page o t. elim o [
          | inl e ↦
              s.apart table (Owns-root k.mem (suc level) table)
                (subst (λ p. In p pages) (sym e) (g.taken page t))
          | inr (i, c, o') ↦ let (c1, o1) = before i page c o' in not_free i page c1 o1 t
        ];
      };
      taken = g.taken;
      owns = λ page o. elim o [
        | inl e ↦ inl (inl e)
        | inr (i, c, o') ↦
            let (c1, o1) = before i page c o' in
            elim (owned i page c1 o1) [ inl o2 ↦ inl (inr (i, c1, o2)) | inr (e, t) ↦ inr t ]
      ];
      away = λ page al no_table used. g.away page al (λ o. no_table (inr (i0, c0, o))) used;
      reads = up_reads;
    }
