-- ===== src/Proc/Exit/Reparent.antt =====
-- `reparent`: it comes to its end, and hands each child of the process to the head of the nearest
-- namespace that has one.
use jklnkhbv.Base.{
  ℕ, zero, suc, ◌+◌, ◌≤◌, ◌<◌, ◌≡◌, refl, ap, ◌∙◌, true, false, Option, some, arith, if◌then◌else◌,
  Bool-cases, inl, inr, ltb, leb, ◌&&◌, ◌⊎◌,
}
use jklnkhbv.Proc.{Kernel, nproc, sleeping, runnable}
use jklnkhbv.Proc.Namespaces.{get_ns_head}
use jklnkhbv.Proc.Levels.{Spaces, at}
use jklnkhbv.Proc.Levels.Walks.{heir, heir-head, get_ns_head_lem}
use jklnkhbv.Proc.Inv.{IsLive, Inv, home, depth_of, Vacant}
use jklnkhbv.Proc.Inv.Quiet.{Quiet, Quiet-refl, Quiet-trans, Inv-Quiet, set_proc-Quiet}
use jklnkhbv.Proc.Alloc.{set_proc}
use jklnkhbv.Proc.Sched.{wakeup, proc_chan}
use jklnkhbv.Proc.Sched.Keeps.{wakeup-Quiet}
use jklnkhbv.Proc.Exit.{is_child, adopt, reparent_loop, reparent}

module _ {M : Type 0} where
  -- The process that gets the children of a process of the namespace of slot `s`.
  abbrev pub heir_of : Kernel M → ℕ → Option ℕ
  heir_of k s = heir k.spaces (depth_of k s) (home k s)

  pub child-IsLive :
      (k : Kernel M) (p s : ℕ) → Vacant k → s < nproc → is_child k p s ≡ true → IsLive (k.procs s)
  child-IsLive k p s o h c = ground (arith, o s h)

  -- The children of `p` in the slots from `lo` up to `hi` have been handed over.
  pub record Adopted (cur : ℕ) (k : Kernel M) (p lo hi : ℕ) (k' : Kernel M) : Type 0 where
    pub quiet : Quiet k k'
    pub stirred :
        (t : ℕ)
        → ((k'.procs t).state ≡ (k.procs t).state)
          ⊎ (((k.procs t).state ≡ sleeping) × ((k'.procs t).state ≡ runnable))
    pub chans : (t : ℕ) → (k'.procs t).chan ≡ (k.procs t).chan
    pub self : (k'.procs cur).state ≡ (k.procs cur).state
    pub parents :
        (t : ℕ)
        → t < nproc
        → (k'.procs t).parent
          ≡ (if leb lo t && (ltb t hi && is_child k p t) then heir_of k t else (k.procs t).parent)

  module _ (k : Kernel M) (cur p : ℕ) (v : Inv k) (s : ℕ) (h : s < nproc) where
    abbrev handed : Kernel M
    handed =
        wakeup (set_proc k s (record (k.procs s) { parent = heir_of k s })) cur
          (proc_chan (heir_of k s))

    adopt-child : is_child k p s ≡ true → adopt k cur p s ≡ some handed
    unfolding adopt
    adopt-child c =
        let l : IsLive (k.procs s) = child-IsLive k p s v.vacant h c in
        let e : get_ns_head k.spaces (k.procs s).ns ≡ some (heir_of k s) =
          ap (get_ns_head k.spaces) (v.placed s h l)
          ∙ get_ns_head_lem (depth_of k s) k.spaces (home k s) (v.homes s h l).shallow
              (v.homes s h l).rooted in
        ground (arith, c, e)

    adopt-other : is_child k p s ≡ false → adopt k cur p s ≡ some k
    unfolding adopt
    adopt-other c = rw (c, adopt)

    handed-Adopted : is_child k p s ≡ true → Adopted cur k p s (s + 1) handed
    unfolding wakeup
    handed-Adopted c = record {
      quiet =
          Quiet-trans
            (set_proc-Quiet k s _ (λ l. record { live = l; ns = refl; pids = refl; pid = refl })
              (λ u. absurd (ground (arith, child-IsLive k p s v.vacant h c))))
            (wakeup-Quiet _ cur _);
      stirred = λ t. ground arith;
      chans = λ t. ground arith;
      self = ground arith;
      parents = λ t ht. ground arith;
    }

    adopt-Adopted : (k1 : Kernel M) × (adopt k cur p s ≡ some k1) × Adopted cur k p s (s + 1) k1
    adopt-Adopted = elim (Bool-cases (is_child k p s)) [
      | inl c ↦ (handed, adopt-child c, handed-Adopted c)
      | inr c ↦ (
        k,
        adopt-other c,
        record {
          quiet = Quiet-refl k;
          stirred = λ t. inl refl;
          chans = λ t. refl;
          self = refl;
          parents = λ t ht. ground arith;
        },
      )
    ]

  -- Who gets a child stays the same while other slots are handed over.
  pub heir_of-Quiet :
      (k k1 : Kernel M) (t : ℕ)
      → Quiet k k1
      → t < nproc
      → IsLive (k1.procs t)
      → heir_of k1 t ≡ heir_of k t
  heir_of-Quiet k k1 t q h l =
      ap (λ (f : Spaces). heir f (f (home k1 t)).depth (home k1 t)) q.spaces
      ∙ ap (λ o. heir k.spaces (k.spaces (at o)).depth (at o)) (q.slots t h l).ns

  Adopted-trans :
      (cur : ℕ) (k k1 k2 : Kernel M) (p s hi : ℕ)
      → Vacant k1
      → s < hi
      → Adopted cur k p s (s + 1) k1
      → Adopted cur k1 p (s + 1) hi k2
      → Adopted cur k p s hi k2
  Adopted-trans cur k k1 k2 p s hi o lt a b = record {
    quiet = Quiet-trans a.quiet b.quiet;
    stirred = λ t. ground (arith, a.stirred t, b.stirred t);
    chans = λ t. b.chans t ∙ a.chans t;
    self = b.self ∙ a.self;
    parents = λ t h. elim (Bool-cases (is_child k1 p t)) [
      | inl c ↦ ground (
        arith,
        a.parents t h,
        b.parents t h,
        heir_of-Quiet k k1 t a.quiet h (child-IsLive k1 p t o h c),
      )
      | inr c ↦ ground (arith, a.parents t h, b.parents t h)
    ];
  }

  pub reparent_loop-Adopted :
      (n s hi : ℕ) (k : Kernel M) (cur p : ℕ)
      → s + n ≡ hi
      → hi ≤ nproc
      → Inv k
      → (k' : Kernel M) × (reparent_loop n s k cur p ≡ some k') × Adopted cur k p s hi k'
  unfolding reparent_loop
  reparent_loop-Adopted zero s hi k cur p e le v = (
    k,
    refl,
    record {
      quiet = Quiet-refl k;
      stirred = λ t. inl refl;
      chans = λ t. refl;
      self = refl;
      parents = λ t h. ground arith;
    },
  )
  reparent_loop-Adopted (suc n) s hi k cur p e le v =
      let (k1, e1, a) = adopt-Adopted k cur p v s (omega arith) in
      let v1 = Inv-Quiet v a.quiet in
      let (k2, e2, b) = reparent_loop-Adopted n (s + 1) hi k1 cur p (omega arith) le v1 in
      (k2, rw e1 e2, Adopted-trans cur k k1 k2 p s hi v1.vacant (omega arith) a b)

  -- In a state that satisfies `Inv`, `reparent` comes to its end, keeps the invariant, and makes the
  -- head of the nearest namespace with a head, from the
  -- child's own one upwards, the parent of every child of `p`; no other parent changes.
  pub reparent_lem :
      (k : Kernel M) (cur p : ℕ)
      → Inv k
      → (k' : Kernel M) × (reparent k cur p ≡ some k')
        × Inv k'
        × Adopted cur k p 0 nproc k'
        × ((t : ℕ)
            → t < nproc
            → (k'.procs t).parent ≡ (if is_child k p t then heir_of k t else (k.procs t).parent))
  unfolding reparent
  reparent_lem k cur p v =
      let (k', e, a) = reparent_loop-Adopted 64 0 64 k cur p refl (omega arith) v in
      (k', e, Inv-Quiet v a.quiet, a, λ t h. ground (arith, a.parents t h))

  -- In a state that satisfies `Inv`, where `p` is the head of the namespace of its child, `reparent`
  -- leaves the child with `p`.
  pub reparent_head :
      (k : Kernel M) (cur p t : ℕ) (k' : Kernel M)
      → Inv k
      → t < nproc
      → is_child k p t ≡ true
      → (k.spaces (home k t)).head ≡ some p
      → reparent k cur p ≡ some k'
      → (k'.procs t).parent ≡ some p
  reparent_head k cur p t k' v h c hd e =
      let (k1, e1, v1, _, moved) = reparent_lem k cur p v in
      let same_end : k' ≡ k1 = ground (arith, e, e1) in
      ap (λ (q : Kernel M). (q.procs t).parent) same_end
      ∙ ground (arith, moved t h, c, heir-head k.spaces (depth_of k t) (home k t) p hd)
