-- ===== src/Vm/Grow.antt =====
-- A new table of zeros behind an entry that was not valid changes nothing of what is looked up.
use jklnkhbv.Base.{
  ℕ, zero, suc, ◌+◌, ◌*◌, ◌%◌, ◌<◌, ◌≡◌, ◌≢◌, ◌⊎◌, inl, inr, refl, sym, ap, ◌∙◌, subst, true, false,
  arith, Bool-cases, ◌==◌,
}
use jklnkhbv.Proc.{pgsize}
use jklnkhbv.Vm.{px, is_valid, pte2pa, entry}
use jklnkhbv.Vm.Tree.{
  Memory, child, Valid, Owns, IsTree, lookup, Agree, px-lt, SameTables, Owns-same, lookup-same,
  IsTree-same,
}

abbrev pub Blank : Memory → ℕ → Type 0
Blank mem page = (i : ℕ) → i < 512 → mem (page + 8 * i) ≡ 0

blank_invalid : (mem : Memory) (page i : ℕ) → Blank mem page → ¬ Valid mem page i
blank_invalid mem page i b c = ground (arith, b i c.0, c.1)

pub blank-IsTree :
    (mem : Memory) (level page : ℕ) → page % pgsize ≡ 0 → Blank mem page → IsTree mem level page
unfolding IsTree
blank-IsTree mem zero page al b = al
blank-IsTree mem (suc level) page al b = (
  al,
  (λ i c. absurd (blank_invalid mem page i b c)),
  (λ i c. absurd (blank_invalid mem page i b c)),
  λ i j q c. absurd (blank_invalid mem page i b c),
)

pub blank_owns :
    (mem : Memory) (level page q : ℕ) → Blank mem page → Owns mem level page q → page ≡ q
unfolding Owns
blank_owns mem zero page q b o = o
blank_owns mem (suc level) page q b (inl e) = e
blank_owns mem (suc level) page q b (inr (i, c, o)) = absurd (blank_invalid mem page i b c)

pub blank_lookup :
    (mem : Memory) (level va page : ℕ) → Blank mem page → lookup mem level va page ≡ 0
unfolding lookup
blank_lookup mem zero va page b = b (px 0 va) (px-lt 0 va)
blank_lookup mem (suc level) va page b = rw (b (px (suc level) va) (px-lt (suc level) va)) refl

module _ (mem mem' : Memory) (level table i0 page : ℕ) (v : IsTree mem (suc level) table)
    (free : is_valid (mem (table + 8 * i0)) ≡ false) (set : is_valid (mem' (table + 8 * i0)) ≡ true)
    (there : child mem' table i0 ≡ page)
    (rest : (i : ℕ) → i < 512 → i ≢ i0 → mem' (table + 8 * i) ≡ mem (table + 8 * i))
    (blank : Blank mem' page) (al : page % pgsize ≡ 0) (new : ¬ Owns mem (suc level) table page)
    (others : (q : ℕ) → Owns mem (suc level) table q → q ≢ table → Agree mem mem' q) where
  same_below : (i : ℕ) → Valid mem table i → SameTables mem mem' level (child mem table i)
  unfolding Owns IsTree
  same_below i c q o =
      others q (inr (i, c, o)) (λ e. v.2 i c (subst (Owns mem level (child mem table i)) e o))

  old : (i : ℕ) → i ≢ i0 → Valid mem' table i → Valid mem table i
  old i ne c = (c.0, rw (rest i c.0 ne) at c.1)

  old_child : (i : ℕ) → i ≢ i0 → i < 512 → child mem' table i ≡ child mem table i
  old_child i ne lt = ap pte2pa (rest i lt ne)

  -- A table behind an entry was there before, or is the new one.
  from :
      (i q : ℕ)
      → Valid mem' table i
      → Owns mem' level (child mem' table i) q
      → (Valid mem table i × Owns mem level (child mem table i) q) ⊎ ((i ≡ i0) × (page ≡ q))
  from i q c o = elim (Bool-cases (i == i0)) [
    | inl e ↦
        let here : i ≡ i0 = ground (arith, e) in
        inr (
          here,
          blank_owns mem' level page q blank
              (subst (λ t. Owns mem' level t q) (ap (child mem' table) here ∙ there) o),
        )
    | inr n ↦
        let ne : i ≢ i0 = ground (arith, n) in
        let c0 = old i ne c in
        inl (
          c0,
          (Owns-same mem mem' level (child mem table i) q (same_below i c0)).0
              (subst (λ t. Owns mem' level t q) (old_child i ne c.0) o),
        )
  ]

  below-IsTree : (i : ℕ) → Valid mem' table i → IsTree mem' level (child mem' table i)
  unfolding IsTree
  below-IsTree i c = elim (Bool-cases (i == i0)) [
    | inl e ↦
        let here : i0 ≡ i = ground (arith, e) in
        subst (λ j. IsTree mem' level (child mem' table j)) here
          (subst (IsTree mem' level) (sym there) (blank-IsTree mem' level page al blank))
    | inr n ↦
        let ne : i ≢ i0 = ground (arith, n) in
        let c0 = old i ne c in
        subst (IsTree mem' level) (sym (old_child i ne c.0))
          (IsTree-same mem mem' level (child mem table i) (same_below i c0) (v.1 i c0))
  ]

  pub grown-IsTree : IsTree mem' (suc level) table
  unfolding IsTree Owns
  grown-IsTree = (
    v.0,
    below-IsTree,
    (λ i c o. elim (from i table c o) [
      | inl (c0, o') ↦ v.2 i c0 o'
      | inr (e, e2) ↦ new (inl (sym e2))
    ]),
    λ i j q ci cj oi oj. elim (from i q ci oi) [
      | inl (c, o) ↦ elim (from j q cj oj) [
        | inl (c2, o2) ↦ v.3 i j q c c2 o o2
        | inr (e, e2) ↦
            absurd (new (inr (i, c, subst (Owns mem level (child mem table i)) (sym e2) o)))
      ]
      | inr (e, e2) ↦ elim (from j q cj oj) [
        | inl (c2, o2) ↦
            absurd (new (inr (j, c2, subst (Owns mem level (child mem table j)) (sym e2) o2)))
        | inr (e3, e4) ↦ e ∙ sym e3
      ]
    ],
  )

  pub grown-Owns :
      (q : ℕ) → Owns mem' (suc level) table q → Owns mem (suc level) table q ⊎ (page ≡ q)
  unfolding Owns
  grown-Owns q (inl e) = inl (inl e)
  grown-Owns q (inr (i, c, o)) = elim (from i q c o) [
    | inl (c0, o') ↦ inl (inr (i, c0, o'))
    | inr (e, e2) ↦ inr e2
  ]

  pub grown-lookup : (va : ℕ) → lookup mem' (suc level) va table ≡ lookup mem (suc level) va table
  unfolding lookup
  grown-lookup va =
      let i : ℕ = px (suc level) va in
      elim (Bool-cases (i == i0)) [
        | inl e ↦
            let here : px (suc level) va ≡ i0 = ground (arith, e) in
            rw (here, set, free, there) (blank_lookup mem' level va page blank)
        | inr n ↦
            let ne : i ≢ i0 = ground (arith, n) in
            let at = rest (px (suc level) va) (px-lt (suc level) va) ne in
            elim (Bool-cases (is_valid (mem (entry table (suc level) va)))) [
              | inl c ↦
                  let c0 : Valid mem table i = (px-lt (suc level) va, c) in
                  rw (at, c) (lookup-same mem mem' level (child mem table i) va (same_below i c0))
              | inr off ↦ rw (at, off) refl
            ]
      ]
