-- ===== src/Vm/Walk.antt =====
-- `walk` of kernel/vm.c: it finds the entry for an address, and makes the tables that are missing.
use jklnkhbv.Base.{
  ℕ, zero, suc, ◌+◌, ◌*◌, ◌%◌, ◌<◌, ◌≡◌, ◌≢◌, ◌⊎◌, inl, inr, refl, sym, ap, subst, true, false,
  Option, none, some, List, [], ◌∷◌, All, update, arith, Bool-cases, ◌==◌,
}
use jklnkhbv.Proc.{pgsize}
use jklnkhbv.Kalloc.{Kmem, fill, kalloc}
use jklnkhbv.Kalloc.Pages.{Frees, IsPage, Elsewhere, Frees-Elsewhere, kalloc_lem}
use jklnkhbv.Vm.{px, is_valid, pte2pa, pa2pte, entry, descend, walk_from}
use jklnkhbv.Vm.Tree.{
  Memory, child, Valid, Owns, IsTree, lookup, Agree, px-lt, Owns-root, Owns-aligned, IsTree-aligned,
}
use jklnkhbv.Vm.Cell.{IsCell}
use jklnkhbv.Vm.Grow.{Blank, grown-IsTree, grown-Owns, grown-lookup}
use jklnkhbv.Vm.Space.{In, IsSpace, Grown, Grown-refl, Grown-trans, Grown-up, table_same}

pub not_in→All : (p : ℕ) (qs : List ℕ) → ¬ In p qs → All (λ q. p ≢ q) qs
not_in→All p [] h = tt
not_in→All p (q ∷ qs) h = ((λ e. h (inl e)), not_in→All p qs (λ i. h (inr i)))

pub All→not_in : (p : ℕ) (qs : List ℕ) → All (λ q. p ≢ q) qs → ¬ In p qs
All→not_in p [] h i = i
All→not_in p (q ∷ qs) h (inl e) = h.0 e
All→not_in p (q ∷ qs) h (inr i) = All→not_in p qs h.1 i

module _ (end : ℕ) (low : 0 < end) where
  -- The new table `p`, which the allocator has filled to give `mem1`, at entry `i0` of a table.
  module _ (level table i0 p : ℕ) (k k1 : Kmem) (ps : List ℕ)
      (s : IsSpace end low (suc level) table k (p ∷ ps)) (lt : i0 < 512)
      (off : is_valid (k.mem (table + 8 * i0)) ≡ false) (page : IsPage end p)
      (fresh : All (λ q. p ≢ q) ps) (v : Frees end low k1 ps)
      (same : Elsewhere end low p k.mem k1.mem) where
    abbrev added : Memory
    added = update (fill p 0 k1.mem) (table + 8 * i0) (pa2pte p + 1)

    aligned : table % pgsize ≡ 0
    aligned = IsTree-aligned k.mem (suc level) table s.tree

    table_used : ¬ In table (p ∷ ps)
    table_used = s.apart table (Owns-root k.mem (suc level) table)

    unowned : ¬ Owns k.mem (suc level) table p
    unowned o = s.apart p o (inl refl)

    apart_page : table ≢ p
    apart_page e = table_used (inl e)

    page_same : (q : ℕ) → q % pgsize ≡ 0 → q ≢ p → q ≢ table → Agree k.mem added q
    page_same q al ne ne' i h =
        ground (arith, al, ne, ne', h, lt, aligned, page.0, same (q + 8 * i) (ground arith))

    blank : Blank added p
    blank i h = ground (arith, h, lt, aligned, page.0, apart_page)

    rest_same : (i : ℕ) → i < 512 → i ≢ i0 → added (table + 8 * i) ≡ k.mem (table + 8 * i)
    rest_same i h ne = ground (
      arith,
      h,
      lt,
      ne,
      aligned,
      page.0,
      apart_page,
      same (table + 8 * i) (ground (arith, h, aligned, page.0, apart_page)),
    )

    here : added (table + 8 * i0) ≡ pa2pte p + 1
    here = ground arith

    points : child added table i0 ≡ p
    points = omega (arith, here, page.0, page.2)

    set : is_valid (added (table + 8 * i0)) ≡ true
    set = ground (arith, here)

    other_tables : (q : ℕ) → Owns k.mem (suc level) table q → q ≢ table → Agree k.mem added q
    other_tables q o ne =
        page_same q (Owns-aligned k.mem (suc level) table q s.tree o)
          (λ e. unowned (subst (Owns k.mem (suc level) table) e o)) ne

    Frees-after : Frees end low (record k1 { mem = added }) ps
    Frees-after =
        let filled =
          Frees-Elsewhere end low p k1 (fill p 0 k1.mem) ps page.0 (λ a out. ground (arith, out))
            fresh v in
        Frees-Elsewhere end low table (record k1 { mem = fill p 0 k1.mem }) added ps aligned
          (λ a out. ground (arith, out, lt)) (not_in→All table ps (λ i. table_used (inr i))) filled

    added-Grown : Grown end low (suc level) table k (p ∷ ps) (record k1 { mem = added }) ps
    added-Grown =
        let owns =
          grown-Owns k.mem added level table i0 p s.tree off set points rest_same blank page.0
            unowned other_tables in
        record {
          space = record {
            tree =
                grown-IsTree k.mem added level table i0 p s.tree off set points rest_same blank
                  page.0 unowned other_tables;
            frees = Frees-after;
            apart = λ q o i. elim (owns q o) [
              | inl o1 ↦ s.apart q o1 (inr i)
              | inr e ↦ All→not_in p ps fresh (subst (λ q. In q ps) (sym e) i)
            ];
          };
          taken = λ q i. inr i;
          owns = λ q o. elim (owns q o) [ inl o1 ↦ inl o1 | inr e ↦ inr (inl (sym e)) ];
          away = λ q al no_table used.
              page_same q al (λ e. used (inl e))
                (λ e. no_table (
                  subst (Owns k.mem (suc level) table) (sym e)
                    (Owns-root k.mem (suc level) table)));
          reads =
              grown-lookup k.mem added level table i0 p s.tree off set points rest_same blank page.0
                unowned other_tables;
        }

  descend_lem :
      (level table i0 : ℕ) (k : Kmem) (pages : List ℕ)
      → IsSpace end low (suc level) table k pages
      → i0 < 512
      → ((descend true (table + 8 * i0) k ≡ (none, k)) × (pages ≡ []))
        ⊎ ((k' : Kmem) × (pages' : List ℕ) × (descend true (table + 8 * i0) k
              ≡ (some (child k'.mem table i0), k'))
            × Valid k'.mem table i0
            × Grown end low (suc level) table k pages k' pages')
  unfolding descend
  descend_lem level table i0 k pages s lt = elim (Bool-cases (is_valid (k.mem (table + 8 * i0)))) [
    | inl on ↦ inr (k, pages, rw on refl, (lt, on), Grown-refl end low (suc level) table k pages s)
    | inr off ↦ elim (kalloc_lem end low k pages s.frees) [
      | inl (none_left, e) ↦ inl (rw (off, e) refl, none_left)
      | inr (p, ps, e, ep, nz, page, fresh, v, same, full) ↦
          let s' : IsSpace end low (suc level) table k (p ∷ ps) =
            subst (IsSpace end low (suc level) table k) e s in
          let k1 : Kmem = (kalloc k).1 in
          let other : (p == 0) ≡ false = ground (arith, nz) in
          let k2 : Kmem = record k1 {
            mem = added level table i0 p k k1 ps s' lt off page fresh v same;
          } in
          let to = points level table i0 p k k1 ps s' lt off page fresh v same in
          inr (
            k2,
            ps,
            rw (off, ep, other) (ap (λ t. (some t, k2)) (sym to)),
            (lt, set level table i0 p k k1 ps s' lt off page fresh v same),
            subst (λ l. Grown end low (suc level) table k l k2 ps) (sym e)
                (added-Grown level table i0 p k k1 ps s' lt off page fresh v same),
          )
    ]
  ]

  -- What `walk` that may make tables comes to.
  abbrev pub Result : ℕ → ℕ → ℕ → Kmem → List ℕ → Option ℕ → Type 0
  Result level va table k' pages' none = pages' ≡ []
  Result level va table k' pages' (some a) = IsCell k'.mem level va table a

  below-IsSpace :
      (level table i0 : ℕ) (k : Kmem) (pages : List ℕ)
      → IsSpace end low (suc level) table k pages
      → Valid k.mem table i0
      → IsSpace end low level (child k.mem table i0) k pages
  unfolding IsTree Owns
  below-IsSpace level table i0 k pages s c = record {
    tree = s.tree.1 i0 c;
    frees = s.frees;
    apart = λ q o. s.apart q (inr (i0, c, o));
  }

  pub walk_from_lem :
      (level va table : ℕ) (k : Kmem) (pages : List ℕ)
      → IsSpace end low level table k pages
      → (r : Option ℕ) × (k' : Kmem) × (pages' : List ℕ) × (walk_from level va true table k
          ≡ (r, k'))
        × Grown end low level table k pages k' pages'
        × Result level va table k' pages' r
  unfolding walk_from IsCell
  walk_from_lem zero va table k pages s =
      (some (entry table 0 va), k, pages, refl, Grown-refl end low zero table k pages s, refl)
  walk_from_lem (suc level) va table k pages s =
      let i0 : ℕ = px (suc level) va in
      elim (descend_lem level table i0 k pages s (px-lt (suc level) va)) [
        | inl (e, none_left) ↦
            (none, k, pages, rw e refl, Grown-refl end low (suc level) table k pages s, none_left)
        | inr (k1, pages1, e, c, g) ↦
            let (r, k2, pages2, e2, g2, res) =
              walk_from_lem level va (child k1.mem table i0) k1 pages1
                (below-IsSpace level table i0 k1 pages1 g.space c) in
            let up = Grown-up end low level table i0 k1 k2 pages1 pages2 g.space c g2 in
            let kept = table_same end low level table i0 k1 k2 pages1 pages2 g.space c g2 i0 c.0 in
            (
              r,
              k2,
              pages2,
              rw e e2,
              Grown-trans end low (suc level) table k k1 k2 pages pages1 pages2 g up,
              elim r
                    as (λ r.
                      Result level va (child k1.mem table i0) k2 pages2 r
                      → Result (suc level) va table k2 pages2 r) [
                        | none ↦ λ h. h
                        | some a ↦ λ h. rw kept (c.1, h)
                      ]
                  res,
            )
      ]

-- `walk` that makes no tables.
pub find_lem :
    (level va table : ℕ) (k : Kmem)
    → ((walk_from level va false table k ≡ (none, k)) × (lookup k.mem level va table ≡ 0))
      ⊎ ((a : ℕ) × (walk_from level va false table k ≡ (some a, k)) × IsCell k.mem level va table a)
unfolding walk_from descend lookup IsCell
find_lem zero va table k = inr (entry table 0 va, refl, refl)
find_lem (suc level) va table k =
    elim (Bool-cases (is_valid (k.mem (entry table (suc level) va)))) [
      | inr off ↦ inl (rw off refl, rw off refl)
      | inl on ↦ elim (find_lem level va (pte2pa (k.mem (entry table (suc level) va))) k) [
        | inl (e, z) ↦ inl (rw on e, rw on z)
        | inr (a, e, c) ↦ inr (a, rw on e, (on, c))
      ]
    ]
