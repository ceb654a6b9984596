-- ===== src/Kalloc/Pages.antt =====
-- `kfree` and `kalloc` of kernel/kalloc.c against a list of free pages.
use jklnkhbv.Base.{
  ℕ, ◌+◌, ◌%◌, ◌≤◌, ◌<◌, ◌≡◌, ◌≢◌, ◌⊎◌, refl, sym, ap, none, some, List, [], ◌∷◌, update, All, ◌==◌,
  ltb, leb, ◌||◌, not, arith, inl, inr, subst, Bool-cases,
}
use jklnkhbv.Proc.{pgsize}
use jklnkhbv.Kalloc.{Kmem, fill, bytes_of_1, bytes_of_5, phystop, kfree, kalloc}

-- A page that `kfree` accepts.
abbrev pub IsPage : ℕ → ℕ → Type 0
IsPage end p = (p % pgsize ≡ 0) × (end ≤ p) × (p < phystop)

-- From `head` on, the memory links these pages.
abbrev pub Links : (ℕ → ℕ) → ℕ → List ℕ → Type 0
Links mem head [] = head ≡ 0
Links mem head (p ∷ ps) = (head ≡ p) × Links mem (mem p) ps

abbrev pub Differ : List ℕ → Type 0
Differ [] = Unit
Differ (p ∷ ps) = All (λ q. p ≢ q) ps × Differ ps

module _ (end : ℕ) (low : 0 < end) where
  -- The allocator refines this list of pages.
  pub record Frees (k : Kmem) (pages : List ℕ) : Type 0 where
    pub links : Links k.mem k.freelist pages
    pub differ : Differ pages
    pub pages_ok : All (IsPage end) pages

  -- Memory outside the page `p` is the same.
  abbrev pub Elsewhere : ℕ → (ℕ → ℕ) → (ℕ → ℕ) → Type 0
  Elsewhere p mem mem' = (a : ℕ) → (a < p) ⊎ (p + pgsize ≤ a) → mem' a ≡ mem a

  -- A write to one page leaves the links of others alone.
  Links-Elsewhere :
      (p : ℕ) (mem mem' : ℕ → ℕ) (head : ℕ) (ps : List ℕ)
      → p % pgsize ≡ 0
      → Elsewhere p mem mem'
      → All (λ q. p ≢ q) ps
      → All (IsPage end) ps
      → Links mem head ps
      → Links mem' head ps
  Links-Elsewhere p mem mem' head [] al same ne ok l = l
  Links-Elsewhere p mem mem' head (q ∷ ps) al same ne ok l =
      let apart : (q < p) ⊎ (p + pgsize ≤ q) = ground (arith, ne.0, ok.0.0) in
      (
        l.0,
        subst (λ h. Links mem' h ps) (sym (same q apart))
            (Links-Elsewhere p mem mem' (mem q) ps al same ne.1 ok.1 l.1),
      )

  -- So it does to the free pages.
  pub Frees-Elsewhere :
      (p : ℕ) (k : Kmem) (mem' : ℕ → ℕ) (pages : List ℕ)
      → p % pgsize ≡ 0
      → Elsewhere p k.mem mem'
      → All (λ q. p ≢ q) pages
      → Frees k pages
      → Frees (record k { mem = mem' }) pages
  Frees-Elsewhere p k mem' pages al same ne v = record {
    links = Links-Elsewhere p k.mem mem' k.freelist pages al same ne v.pages_ok v.links;
    differ = v.differ;
    pages_ok = v.pages_ok;
  }

  -- `kfree` of a page that is not free adds it to the free ones, and changes no memory outside it.
  -- Of any other address it is a panic.
  pub kfree_lem :
      (k : Kmem) (pages : List ℕ) (pa : ℕ)
      → Frees k pages
      → All (λ q. pa ≢ q) pages
      → (IsPage end pa
          × ((k' : Kmem) × (kfree end pa k ≡ some k')
              × Frees k' (pa ∷ pages)
              × Elsewhere pa k.mem k'.mem))
        ⊎ ((IsPage end pa → ⊥) × (kfree end pa k ≡ none))
  unfolding kfree
  kfree_lem k pages pa v fresh =
      elim (Bool-cases (not (pa % pgsize == 0) || (ltb pa end || leb phystop pa))) [
        | inl bad ↦ inr ((λ ok. ground (arith, bad, ok.0, ok.1, ok.2)), rw bad refl)
        | inr good ↦
            let ok : IsPage end pa =
              (ground (arith, good), ground (arith, good), ground (arith, good)) in
            let mem' : ℕ → ℕ = update (fill pa bytes_of_1 k.mem) pa k.freelist in
            let same : Elsewhere pa k.mem mem' = λ a out. ground (arith, out) in
            let linked : mem' pa ≡ k.freelist = ground arith in
            inl (
              ok,
              (
                record { freelist = pa; mem = mem' },
                rw good refl,
                record {
                  links = (
                    refl,
                    subst (λ h. Links mem' h pages) (sym linked)
                        (Links-Elsewhere pa k.mem mem' k.freelist pages ok.0 same fresh v.pages_ok
                          v.links),
                  );
                  differ = (fresh, v.differ);
                  pages_ok = (ok, v.pages_ok);
                },
                same,
              ),
            )
      ]

  -- `kalloc` returns 0 and changes nothing if no page is free. Else it takes the first free page,
  -- which was free and is so no more, fills it with 5, and changes no memory outside it.
  pub kalloc_lem :
      (k : Kmem) (pages : List ℕ)
      → Frees k pages
      → ((pages ≡ []) × (kalloc k ≡ (0, k)))
        ⊎ ((p : ℕ) × (ps : List ℕ) × (pages ≡ p ∷ ps)
            × ((kalloc k).0 ≡ p)
            × (p ≢ 0)
            × IsPage end p
            × All (λ q. p ≢ q) ps
            × Frees (kalloc k).1 ps
            × Elsewhere p k.mem (kalloc k).1.mem
            × ((a : ℕ) → p ≤ a → a < p + pgsize → (kalloc k).1.mem a ≡ bytes_of_5))
  unfolding kalloc
  kalloc_lem k [] v = inl (refl, ground (arith, v.links))
  kalloc_lem k (p ∷ ps) v =
      let page = v.pages_ok.0 in
      let nonzero : p ≢ 0 = omega (arith, page.1, low) in
      let mem' : ℕ → ℕ = fill p bytes_of_5 k.mem in
      let same : Elsewhere p k.mem mem' = λ a out. ground (arith, out) in
      let taken : kalloc k ≡ (p, record { freelist = k.mem p; mem = mem' }) =
        ground (arith, v.links.0, nonzero) in
      inr (
        p,
        ps,
        refl,
        ap (λ (r : ℕ × Kmem). r.0) taken,
        nonzero,
        page,
        v.differ.0,
        subst (λ (r : ℕ × Kmem). Frees r.1 ps) (sym taken)
            (record {
              links =
                  Links-Elsewhere p k.mem mem' (k.mem p) ps page.0 same v.differ.0 v.pages_ok.1
                    v.links.1;
              differ = v.differ.1;
              pages_ok = v.pages_ok.1;
            }),
        subst (λ (r : ℕ × Kmem). Elsewhere p k.mem r.1.mem) (sym taken) same,
        subst (λ (r : ℕ × Kmem). (a : ℕ) → p ≤ a → a < p + pgsize → r.1.mem a ≡ bytes_of_5)
            (sym taken) (λ a lo hi. ground arith),
      )
