-- ===== src/Vm/Tree.antt =====
-- Page tables as trees of pages that do not share any, and what a write elsewhere leaves alone.
use jklnkhbv.Base.{
  ℕ, zero, suc, ◌+◌, ◌*◌, ◌%◌, ◌<◌, ◌≡◌, ◌≢◌, ◌⊎◌, inl, inr, refl, sym, ap, ◌∙◌, subst, true,
  if◌then◌else◌, arith, Bool-cases, update,
}
use jklnkhbv.Proc.{pgsize}
use jklnkhbv.Vm.{px, is_valid, pte2pa, entry}

abbrev pub Memory : Type 0
Memory = ℕ → ℕ

-- The table behind entry `i` of a table.
abbrev pub child : Memory → ℕ → ℕ → ℕ
child mem table i = pte2pa (mem (table + 8 * i))

abbrev pub Valid : Memory → ℕ → ℕ → Type 0
Valid mem table i = (i < 512) × (is_valid (mem (table + 8 * i)) ≡ true)

-- The page is one of the tables from a table of the level on.
unfoldable pub Owns : Memory → ℕ → ℕ → ℕ → Type 0
Owns mem zero table page = table ≡ page
Owns mem (suc level) table page =
    (table ≡ page) ⊎ ((i : ℕ) × Valid mem table i × Owns mem level (child mem table i) page)

-- Tables are pages, and no table is reached in two ways.
unfoldable pub IsTree : Memory → ℕ → ℕ → Type 0
IsTree mem zero table = table % pgsize ≡ 0
IsTree mem (suc level) table =
    (table % pgsize ≡ 0)
    × ((i : ℕ) → Valid mem table i → IsTree mem level (child mem table i))
    × ((i : ℕ) → Valid mem table i → ¬ Owns mem level (child mem table i) table)
    × ((i j page : ℕ)
        → Valid mem table i
        → Valid mem table j
        → Owns mem level (child mem table i) page
        → Owns mem level (child mem table j) page
        → i ≡ j)

-- The entry for an address in the table of the last level, or 0 if a table is missing.
unfoldable pub lookup : Memory → ℕ → ℕ → ℕ → ℕ
lookup mem zero va table = mem (entry table 0 va)
lookup mem (suc level) va table =
    let pte = mem (entry table (suc level) va) in
    let below = lookup mem level va (pte2pa pte) in if is_valid pte then below else 0

-- The entries of a page are the same.
abbrev pub Agree : Memory → Memory → ℕ → Type 0
Agree mem mem' page = (i : ℕ) → i < 512 → mem' (page + 8 * i) ≡ mem (page + 8 * i)

pub px-lt : (level va : ℕ) → px level va < 512
unfolding px
px-lt level va = omega arith

pub Owns-root : (mem : Memory) (level table : ℕ) → Owns mem level table table
unfolding Owns
Owns-root mem zero table = refl
Owns-root mem (suc level) table = inl refl

pub IsTree-aligned : (mem : Memory) (level table : ℕ) → IsTree mem level table → table % pgsize ≡ 0
unfolding IsTree
IsTree-aligned mem zero table v = v
IsTree-aligned mem (suc level) table v = v.0

pub Owns-aligned :
    (mem : Memory) (level table page : ℕ)
    → IsTree mem level table
    → Owns mem level table page
    → page % pgsize ≡ 0
unfolding Owns IsTree
Owns-aligned mem zero table page v o = omega (arith, v, o)
Owns-aligned mem (suc level) table page v (inl e) = omega (arith, v.0, e)
Owns-aligned mem (suc level) table page v (inr (i, c, o)) =
    Owns-aligned mem level (child mem table i) page (v.1 i c) o

module _ (mem mem' : Memory) where
  -- The two memories agree on the tables that the first one has.
  abbrev pub SameTables : ℕ → ℕ → Type 0
  SameTables level table = (page : ℕ) → Owns mem level table page → Agree mem mem' page

  same_child :
      (level table i : ℕ)
      → SameTables (suc level) table
      → i < 512
      → mem' (table + 8 * i) ≡ mem (table + 8 * i)
  unfolding Owns
  same_child level table i s lt = s table (inl refl) i lt

  below_same :
      (level table i : ℕ)
      → SameTables (suc level) table
      → Valid mem table i
      → SameTables level (child mem table i)
  unfolding Owns
  below_same level table i s c page o = s page (inr (i, c, o))

  pub Owns-same :
      (level table page : ℕ)
      → SameTables level table
      → (Owns mem' level table page → Owns mem level table page)
        × (Owns mem level table page → Owns mem' level table page)
  unfolding Owns
  Owns-same zero table page s = ((λ o. o), λ o. o)
  Owns-same (suc level) table page s = (
    λ o. elim o [
      | inl e ↦ inl e
      | inr (i, c, o') ↦
          let e = same_child level table i s c.0 in
          let c0 : Valid mem table i = (c.0, rw e at c.1) in
          inr (
            i,
            c0,
            (Owns-same level (child mem table i) page (below_same level table i s c0)).0
                (subst (λ w. Owns mem' level (pte2pa w) page) e o'),
          )
    ],
    λ o. elim o [
      | inl e ↦ inl e
      | inr (i, c, o') ↦
          let e = same_child level table i s c.0 in
          let o2 = (Owns-same level (child mem table i) page (below_same level table i s c)).1 o' in
          inr (i, (c.0, rw e c.1), subst (λ w. Owns mem' level (pte2pa w) page) (sym e) o2)
    ],
  )

  pub lookup-same :
      (level table va : ℕ)
      → SameTables level table
      → lookup mem' level va table ≡ lookup mem level va table
  unfolding Owns lookup
  lookup-same zero table va s = s table refl (px 0 va) (px-lt 0 va)
  lookup-same (suc level) table va s =
      let e = same_child level table (px (suc level) va) s (px-lt (suc level) va) in
      elim (Bool-cases (is_valid (mem (entry table (suc level) va)))) [
        | inl c ↦
            rw (e, c)
              (lookup-same level (child mem table (px (suc level) va)) va
                (below_same level table (px (suc level) va) s (px-lt (suc level) va, c)))
        | inr n ↦ rw (e, n) refl
      ]

  -- An entry of the table itself is the same, and so is what stands behind it.
  back :
      (level table i : ℕ)
      → SameTables (suc level) table
      → Valid mem' table i
      → Valid mem table i × (child mem' table i ≡ child mem table i)
  back level table i s c =
      let e = same_child level table i s c.0 in ((c.0, rw e at c.1), ap pte2pa e)

  owned_back :
      (level table i page : ℕ)
      → SameTables (suc level) table
      → Valid mem' table i
      → Owns mem' level (child mem' table i) page
      → Owns mem level (child mem table i) page
  owned_back level table i page s c' o =
      let (c, e) = back level table i s c' in
      (Owns-same level (child mem table i) page (below_same level table i s c)).0
        (subst (λ t. Owns mem' level t page) e o)

  pub IsTree-same :
      (level table : ℕ) → SameTables level table → IsTree mem level table → IsTree mem' level table
  unfolding IsTree
  IsTree-same zero table s v = v
  IsTree-same (suc level) table s v = (
    v.0,
    (λ i c'.
        let (c, e) = back level table i s c' in
        subst (IsTree mem' level) (sym e)
          (IsTree-same level (child mem table i) (below_same level table i s c) (v.1 i c))),
    (λ i c' o. v.2 i (back level table i s c').0 (owned_back level table i table s c' o)),
    λ i j page ci cj oi oj.
        v.3 i j page (back level table i s ci).0 (back level table j s cj).0
          (owned_back level table i page s ci oi) (owned_back level table j page s cj oj),
  )

-- A change below one entry of a table: the tables behind it may grow by some that are new.
pub rebuild :
    (mem mem' : Memory) (level table i0 : ℕ) (New : ℕ → Type 0)
    → Agree mem mem' table
    → ((i : ℕ) → Valid mem table i → IsTree mem' level (child mem table i))
    → ((i page : ℕ)
        → Valid mem table i
        → Owns mem' level (child mem table i) page
        → Owns mem level (child mem table i) page ⊎ ((i ≡ i0) × New page))
    → ((page : ℕ) → New page → ¬ Owns mem (suc level) table page)
    → IsTree mem (suc level) table
    → IsTree mem' (suc level) table
unfolding IsTree Owns
rebuild mem mem' level table i0 New agree trees grows new v =
    let old : (i : ℕ) → Valid mem' table i → Valid mem table i =
      λ i c. (c.0, rw (agree i c.0) at c.1) in
    let child_eq : (i : ℕ) → Valid mem' table i → child mem' table i ≡ child mem table i =
      λ i c. ap pte2pa (agree i c.0) in
    let from : (i page : ℕ)
        → (c : Valid mem' table i) → Owns mem' level (child mem' table i) page
        → Owns mem level (child mem table i) page ⊎ ((i ≡ i0) × New page) =
      λ i page c o. grows i page (old i c) (subst (λ t. Owns mem' level t page) (child_eq i c) o) in
    (
      v.0,
      (λ i c. subst (IsTree mem' level) (sym (child_eq i c)) (trees i (old i c))),
      (λ i c o. elim (from i table c o) [
        | inl o' ↦ v.2 i (old i c) o'
        | inr (e, n) ↦ new table n (inl refl)
      ]),
      λ i j page ci cj oi oj. elim (from i page ci oi) [
        | inl o' ↦ elim (from j page cj oj) [
          | inl o2 ↦ v.3 i j page (old i ci) (old j cj) o' o2
          | inr (e, n) ↦ absurd (new page n (inr (i, old i ci, o')))
        ]
        | inr (e, n) ↦ elim (from j page cj oj) [
          | inl o2 ↦ absurd (new page n (inr (j, old j cj, o2)))
          | inr (e2, n2) ↦ e ∙ sym e2
        ]
      ],
    )

-- A write to an entry of one page leaves other pages alone.
pub agree_other :
    (mem : Memory) (page other k v : ℕ)
    → page % pgsize ≡ 0
    → other % pgsize ≡ 0
    → other ≢ page
    → k < 512
    → Agree mem (update mem (page + 8 * k) v) other
agree_other mem page other k v al al' ne lt i lt' = ground (arith, al, al', ne, lt, lt')
