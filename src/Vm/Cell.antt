-- ===== src/Vm/Cell.antt =====
-- A write to an entry of a last table changes what is looked up for its page only.
use jklnkhbv.Base.{
  ℕ, zero, suc, ◌+◌, ◌*◌, ◌%◌, ◌≡◌, ◌≢◌, inl, inr, refl, sym, ap, subst, Bool, true, if◌then◌else◌,
  arith, Bool-cases, update, ◌==◌, ◌&&◌,
}
use jklnkhbv.Proc.{pgsize}
use jklnkhbv.Vm.{px, is_valid, pte2pa, entry}
use jklnkhbv.Vm.Tree.{
  Memory, child, Valid, Owns, IsTree, lookup, Agree, px-lt, Owns-aligned, SameTables, Owns-same,
  lookup-same, IsTree-same, rebuild, agree_other,
}

-- The entry that `walk` arrives at.
unfoldable pub IsCell : Memory → ℕ → ℕ → ℕ → ℕ → Type 0
IsCell mem zero va table a = a ≡ entry table 0 va
IsCell mem (suc level) va table a =
    (is_valid (mem (entry table (suc level) va)) ≡ true)
    × IsCell mem level va (pte2pa (mem (entry table (suc level) va))) a

-- The indices of the two addresses are the same from a level on.
unfoldable pub same_page : ℕ → ℕ → ℕ → Bool
same_page zero va va' = px 0 va == px 0 va'
same_page (suc level) va va' = px (suc level) va == px (suc level) va' && same_page level va va'

eq_sym : (i j : ℕ) → (i == j) ≡ true → j ≡ i
eq_sym i j e = ground arith

==_self : (i : ℕ) → (i == i) ≡ true
==_self i = ground arith

pub IsCell-owned :
    (mem : Memory) (level va table a : ℕ)
    → IsCell mem level va table a
    → (page : ℕ) × Owns mem level table page × (a ≡ page + 8 * px 0 va)
unfolding IsCell Owns
IsCell-owned mem zero va table a c = (table, refl, c)
IsCell-owned mem (suc level) va table a (valid, c) =
    let (page, o, e) = IsCell-owned mem level va (pte2pa (mem (entry table (suc level) va))) a c in
    (page, inr (px (suc level) va, (px-lt (suc level) va, valid), o), e)

-- What is looked up at the cell's address is in the cell.
pub IsCell-lookup :
    (mem : Memory) (level va table a : ℕ)
    → IsCell mem level va table a
    → lookup mem level va table ≡ mem a
unfolding IsCell lookup
IsCell-lookup mem zero va table a c = ap mem (sym c)
IsCell-lookup mem (suc level) va table a (valid, c) =
    rw valid (IsCell-lookup mem level va (pte2pa (mem (entry table (suc level) va))) a c)

-- It is the same where the tables are.
pub IsCell-same :
    (mem mem' : Memory) (level va table a : ℕ)
    → SameTables mem mem' level table
    → IsCell mem level va table a
    → IsCell mem' level va table a
unfolding IsCell Owns
IsCell-same mem mem' zero va table a s c = c
IsCell-same mem mem' (suc level) va table a s (valid, c) =
    let i : ℕ = px (suc level) va in
    let at : mem' (entry table (suc level) va) ≡ mem (entry table (suc level) va) =
      s table (inl refl) i (px-lt (suc level) va) in
    let below : SameTables mem mem' level (child mem table i) =
      λ q o. s q (inr (i, (px-lt (suc level) va, valid), o)) in
    rw at (valid, IsCell-same mem mem' level va (child mem table i) a below c)

-- What a write of `v` to the cell does.
pub record Written (mem mem' : Memory) (level va table v : ℕ) : Type 0 where
  pub tree : IsTree mem' level table
  pub owns : (page : ℕ) → Owns mem' level table page → Owns mem level table page
  pub reads :
      (va' : ℕ)
      → lookup mem' level va' table
        ≡ (if same_page level va va' then v else lookup mem level va' table)

-- The same for a table above, where the other tables behind it are the same.
write_up :
    (mem mem' : Memory) (level va table v : ℕ)
    → IsTree mem (suc level) table
    → is_valid (mem (entry table (suc level) va)) ≡ true
    → Agree mem mem' table
    → ((i : ℕ)
        → Valid mem table i
        → i ≢ px (suc level) va
        → SameTables mem mem' level (child mem table i))
    → Written mem mem' level va (child mem table (px (suc level) va)) v
    → Written mem mem' (suc level) va table v
unfolding IsTree Owns lookup same_page
write_up mem mem' level va table v t valid agree same w =
    let i0 : ℕ = px (suc level) va in
    let trees : (i : ℕ) → Valid mem table i → IsTree mem' level (child mem table i) = λ i c.
      elim (Bool-cases (i == i0)) [
        | inl e ↦ subst (λ j. IsTree mem' level (child mem table j)) (eq_sym i i0 e) w.tree
        | inr ne ↦
            IsTree-same mem mem' level (child mem table i) (same i c (ground (arith, ne))) (t.1 i c)
      ] in
    let owned : (i page : ℕ)
        → Valid mem table i
        → Owns mem' level (child mem table i) page
        → Owns mem level (child mem table i) page =
      λ i page c. elim (Bool-cases (i == i0)) [
        | inl e ↦
            subst
              (λ j.
                Owns mem' level (child mem table j) page → Owns mem level (child mem table j) page)
              (eq_sym i i0 e) (w.owns page)
        | inr ne ↦
            (Owns-same mem mem' level (child mem table i) page (same i c (ground (arith, ne)))).0
      ] in
    record {
      tree =
          rebuild mem mem' level table i0 (λ p. ⊥) agree trees
            (λ i page c o. inl (owned i page c o)) (λ page n. absurd n) t;
      owns = λ page o. elim o [
        | inl e ↦ inl e
        | inr (i, c', o') ↦
            let c : Valid mem table i = (c'.0, rw (agree i c'.0) at c'.1) in
            inr (
              i,
              c,
              owned i page c (subst (λ q. Owns mem' level (pte2pa q) page) (agree i c'.0) o'),
            )
      ];
      reads = λ va'.
          let at = agree (px (suc level) va') (px-lt (suc level) va') in
          elim (Bool-cases (i0 == px (suc level) va')) [
            | inl e ↦
                let here : px (suc level) va' ≡ i0 = ground (arith, e) in
                rw at (rw here (rw (valid, ==_self i0) (w.reads va')))
            | inr ne ↦ elim (Bool-cases (is_valid (mem (entry table (suc level) va')))) [
              | inl c ↦
                  let away =
                    same (px (suc level) va') (px-lt (suc level) va', c) (ground (arith, ne)) in
                  rw (at, ne, c)
                    (lookup-same mem mem' level (child mem table (px (suc level) va')) va' away)
              | inr n ↦ rw (at, ne, n) refl
            ]
          ];
    }

pub write_lem :
    (mem : Memory) (level va table a v : ℕ)
    → IsTree mem level table
    → IsCell mem level va table a
    → Written mem (update mem a v) level va table v
unfolding IsTree IsCell Owns lookup same_page
write_lem mem zero va table a v t c = record {
  tree = t;
  owns = λ page o. o;
  reads = λ va'. ground (arith, c);
}
write_lem mem (suc level) va table a v t (valid, c) =
    let mem' : Memory = update mem a v in
    let i0 : ℕ = px (suc level) va in
    let below : ℕ = child mem table i0 in
    let c0 : Valid mem table i0 = (px-lt (suc level) va, valid) in
    let ih = write_lem mem level va below a v (t.1 i0 c0) c in
    let (page, o, e) = IsCell-owned mem level va below a c in
    let al : page % pgsize ≡ 0 = Owns-aligned mem level below page (t.1 i0 c0) o in
    let others : (q : ℕ) → q % pgsize ≡ 0 → q ≢ page → Agree mem mem' q = λ q al' ne.
      subst (λ b. Agree mem (update mem b v) q) (sym e)
        (agree_other mem page q (px 0 va) v al al' ne (px-lt 0 va)) in
    let agree : Agree mem mem' table =
      others table t.0 (λ e2. t.2 i0 c0 (subst (λ p. Owns mem level below p) (sym e2) o)) in
    let same : (i : ℕ)
        → Valid mem table i
        → i ≢ i0
        → SameTables mem mem' level (child mem table i) =
      λ i ci ne q oq.
        others q (Owns-aligned mem level (child mem table i) q (t.1 i ci) oq)
          (λ e2. ne (t.3 i i0 page ci c0 (subst (Owns mem level (child mem table i)) e2 oq) o)) in
    write_up mem mem' level va table v t valid agree same ih
