-- ===== src/Vm/Resize/Frames.antt =====
-- The pages that the loop of `uvmalloc` of kernel/vm.c has mapped so far.
use jklnkhbv.Base.{
  ℕ, suc, ◌+◌, ◌-◌, ◌*◌, ◌/◌, ◌%◌, ◌^◌, ◌<◌, ◌≤◌, ◌≡◌, ◌≢◌, ◌⊎◌, inl, inr, refl, sym, ap, ◌∙◌,
  subst, true, some, List, ◌∷◌, All, update, update_self, update_ne, if◌then◌else◌, arith,
  Bool-cases, ◌==◌, ltb, leb, ◌&&◌,
}
use jklnkhbv.Proc.{pgsize}
use jklnkhbv.Kalloc.{Kmem, fill, round_up}
use jklnkhbv.Kalloc.Pages.{IsPage, Elsewhere, Frees, Frees-Elsewhere}
use jklnkhbv.Vm.{maxva, is_valid, pte2pa, leaf}
use jklnkhbv.Vm.Tree.{Owns, Owns-aligned, IsTree-same, Owns-same, lookup-same, SameTables}
use jklnkhbv.Vm.Space.{In}
use jklnkhbv.Vm.Walk.{All→not_in}
use jklnkhbv.Vm.Map.{entry_at, Space, Maps}
use jklnkhbv.Vm.Unmap.{IsOther, Leaves}
use jklnkhbv.Vm.Resize.{uvmdealloc_lem, give_back}

module _ (end : ℕ) (low : 0 < end) (table : ℕ) where
  -- The state after `kalloc` of `p` and `memset` of it to 0.
  abbrev pub blanked : ℕ → Kmem → Kmem
  blanked p k = record k { mem = fill p 0 k.mem }

  pub record Taken (p : ℕ) (ps : List ℕ) (k k' : Kmem) : Type 0 where
    pub space : Space end low table k' ps
    pub other : IsOther end low table p k' ps
    pub same : SameTables k.mem k'.mem 2 table

  pub taken_lem :
      (p : ℕ) (ps : List ℕ) (k k1 : Kmem)
      → Space end low table k (p ∷ ps)
      → IsPage end p
      → All (λ q. p ≢ q) ps
      → Frees end low k1 ps
      → Elsewhere end low p k.mem k1.mem
      → Taken p ps k (blanked p k1)
  taken_lem p ps k k1 s page fresh f away =
      let k2 = blanked p k1 in
      let unowned : ¬ Owns k.mem 2 table p = λ o. s.apart p o (inl refl) in
      let same : SameTables k.mem k2.mem 2 table = λ q o i lt.
        let al = Owns-aligned k.mem 2 table q s.tree o in
        let ne : q ≢ p = λ e. unowned (subst (Owns k.mem 2 table) e o) in
        let out : (q + 8 * i < p) ⊎ (p + pgsize ≤ q + 8 * i) = ground (arith, al, ne, page.0, lt) in
        ground (arith, away (q + 8 * i) out, out) in
      record {
        space = record {
          tree = IsTree-same k.mem k2.mem 2 table same s.tree;
          frees =
              Frees-Elsewhere end low p k1 k2.mem ps page.0 (λ a out. ground (arith, out)) fresh f;
          apart = λ q o i. s.apart q ((Owns-same k.mem k2.mem 2 table q same).0 o) (inr i);
        };
        other = (
          page,
          (λ o. unowned ((Owns-same k.mem k2.mem 2 table p same).0 o)),
          All→not_in p ps fresh,
        );
        same = same;
      }

  module _ (b perm : ℕ) (k0 : Kmem) where
    -- From `k0` to `k`, the first `n` pages from `b` on have been mapped to the pages `frames`, which
    -- differ from each other, from the free ones and from the tables. All else is as it was.
    pub record Sofar (n : ℕ) (frames : ℕ → ℕ) (k : Kmem) (pages : List ℕ) : Type 0 where
      pub space : Space end low table k pages
      pub others : (j : ℕ) → j < n → IsOther end low table (frames j) k pages
      pub distinct : (i j : ℕ) → i < n → j < n → frames i ≡ frames j → i ≡ j
      pub reads :
          (va : ℕ)
          → va < maxva
          → entry_at k table va ≡ (
              if leb b va && ltb va (b + n * pgsize)
              then leaf (frames ((va - b) / pgsize)) perm
              else entry_at k0 table va)

    -- Changes of other memory and of the free pages.
    pub moved_Sofar :
        (n : ℕ) (frames : ℕ → ℕ) (k k' : Kmem) (pages pages' : List ℕ)
        → Sofar n frames k pages
        → SameTables k.mem k'.mem 2 table
        → Space end low table k' pages'
        → ((j : ℕ) → j < n → ¬ In (frames j) pages')
        → Sofar n frames k' pages'
    moved_Sofar n frames k k' pages pages' f same s out = record {
      space = s;
      others = λ j h.
          let o = f.others j h in
          (o.0, (λ w. o.1 ((Owns-same k.mem k'.mem 2 table (frames j) same).0 w)), out j h);
      distinct = f.distinct;
      reads = λ va h. lookup-same k.mem k'.mem 2 table va same ∙ f.reads va h;
    }

    pub still_Other :
        (q a pa : ℕ) (n : ℕ) (k k' : Kmem) (pages pages' : List ℕ)
        → Maps end low table n a pa perm k pages k' pages'
        → IsOther end low table q k pages
        → IsOther end low table q k' pages'
    still_Other q a pa n k k' pages pages' m o = (
      o.0,
      (λ w. elim (m.owns q w) [ inl old ↦ o.1 old | inr i ↦ o.2 i ]),
      λ i. o.2 (m.taken q i),
    )

    pub mapped_Sofar :
        (n p : ℕ) (frames : ℕ → ℕ) (k k' : Kmem) (pages pages' : List ℕ)
        → b % pgsize ≡ 0
        → b + suc n * pgsize ≤ maxva
        → Sofar n frames k pages
        → IsOther end low table p k pages
        → ((j : ℕ) → j < n → frames j ≢ p)
        → Maps end low table 1 (b + n * pgsize) p perm k pages k' pages'
        → Sofar (suc n) (update frames n p) k' pages'
    mapped_Sofar n p frames k k' pages pages' al fits f other new m = record {
      space = m.space;
      others = λ j h. elim (Bool-cases (n == j)) [
        | inl e ↦
            subst (λ q. IsOther end low table q k' pages')
              (sym (update_self frames n j p (ground (arith, e))))
              (still_Other p (b + n * pgsize) p 1 k k' pages pages' m other)
        | inr e ↦
            subst (λ q. IsOther end low table q k' pages')
              (sym (update_ne frames n j p (ground (arith, e))))
              (still_Other (frames j) (b + n * pgsize) p 1 k k' pages pages' m
                (f.others j (ground (arith, h, e))))
      ];
      distinct = λ i j hi hj e. ground (arith, hi, hj, e, f.distinct i j, new i, new j);
      reads = λ va h. ground (arith, m.reads va h, f.reads va h, al, fits);
    }

    -- The first `n` pages from `b` on have no entries, and all others are as before.
    abbrev pub Restored : ℕ → Kmem → Type 0
    Restored n k' =
        ((pages' : List ℕ) × Space end low table k' pages')
        × ((va : ℕ)
            → va < maxva
            → entry_at k' table va
              ≡ (if leb b va && ltb va (b + n * pgsize) then 0 else entry_at k0 table va))

    module _ (flags : perm < 2 ^ 10) (user : perm / 2 ^ 4 % 2 ≡ 1) (al : b % pgsize ≡ 0) where
      leaf_lem :
          (p : ℕ)
          → IsPage end p
          → (is_valid (leaf p perm) ≡ true)
            × (leaf p perm % 2 ^ 10 ≢ 1)
            × (pte2pa (leaf p perm) ≡ p)
      leaf_lem p page = (
        ground (arith, flags),
        (λ e. ground (arith, flags, user, e)),
        ground (arith, flags, page.0, page.2),
      )

      module _ (n : ℕ) (frames : ℕ → ℕ) (k : Kmem) (pages : List ℕ) (f : Sofar n frames k pages)
          (fits : b + n * pgsize ≤ maxva) where
        entry_lem : (j : ℕ) → j < n → entry_at k table (b + j * pgsize) ≡ leaf (frames j) perm
        entry_lem j h =
            let place : (b + j * pgsize - b) / pgsize ≡ j = omega arith in
            let in_range : (leb b (b + j * pgsize) && ltb (b + j * pgsize) (b + n * pgsize))
                ≡ true =
              ground (arith, h) in
            f.reads (b + j * pgsize) (omega (arith, h, fits)) ∙ rw (in_range, place) refl

        frames-Leaves : Leaves end low table true n b k pages
        frames-Leaves = record {
          leaf = λ j h.
              let o = f.others j h in
              let l = leaf_lem (frames j) o.0 in rw (entry_lem j h) (l.0, l.1, λ on. rw l.2 o);
          distinct = λ on i j hi hj e. f.distinct i j hi hj (
              sym (leaf_lem (frames i) (f.others i hi).0).2
              ∙ ap pte2pa (sym (entry_lem i hi))
              ∙ e
              ∙ ap pte2pa (entry_lem j hj)
              ∙ (leaf_lem (frames j) (f.others j hj).0).2);
        }

        pub give_back_lem :
            (heap : ℕ)
            → (k' : Kmem) × (give_back end table (b + n * pgsize) b heap k ≡ some (0, heap, k'))
              × Restored n k'
        give_back_lem heap =
            let top : round_up (b + n * pgsize) ≡ b + n * pgsize = omega (arith, al) in
            let bottom : round_up b ≡ b = omega (arith, al) in
            let pages_left : (b + n * pgsize - b) / pgsize ≡ n = omega arith in
            let leaves : Leaves end low table true
                ((round_up (b + n * pgsize) - round_up b) / pgsize) (round_up b) k pages =
              rw (top, bottom, pages_left) frames-Leaves in
            let (k', e, s, reads) =
              uvmdealloc_lem end low table (b + n * pgsize) b k pages f.space fits leaves in
            (
              k',
              rw e refl,
              ((_, s), λ va h. reads va h ∙ rw (top, bottom) (ground (arith, f.reads va h))),
            )
