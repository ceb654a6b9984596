-- ===== src/Proc/Fork/Succeeds.antt =====
-- When `fork` of kernel/proc.c succeeds.
use jklnkhbv.Base.{
  ℕ, suc, ◌+◌, ◌<◌, ◌≡◌, ◌≢◌, refl, sym, ap, ◌∙◌, Bool, true, false, Option, none, some, arith,
  ◌>>=◌, subst, find_from, find_from-none, find_from-some, Option-cases, update, leb, not, inl, inr,
}
use jklnkhbv.Proc.{Kernel, is_unused, nproc, numns, max_depth}
use jklnkhbv.Proc.Services.{Services}
use jklnkhbv.Proc.Namespaces.{number_levels, fresh_namespace}
use jklnkhbv.Proc.Inv.{Inv, home, depth_of}
use jklnkhbv.Proc.Alloc.{claimed, equip, found, allocproc}
use jklnkhbv.Proc.Fork.{
  clone, clone_from, enter_namespace, attach, populate, start_head, Code, err, val, finish_child,
  copy_process, start_child, fork,
}
use jklnkhbv.Proc.Fork.Keeps.{Runs}
use jklnkhbv.Proc.Fork.Forked.{fork_lem}
use jklnkhbv.Proc.Fork.Cloned.{clone_lem, clone-allocnamespace, allocnamespace-some}

-- Memory does not run out in the call of `fork` or `clone` by `cur`: `kalloc` has a page for the
-- trapframe, `proc_pagetable` then makes a page table, and `uvmcopy` after that has the pages for the
-- caller's memory.
abbrev pub HasPages : {M : Type 0} → Services M → Kernel M → ℕ → Type 0
HasPages {M} sv k cur =
    (from page to : ℕ) × (m1 m2 m3 : M) × ((k.procs cur).pagetable ≡ some from)
    × (sv.kalloc k.rest ≡ (some page, m1))
    × (sv.proc_pagetable page m1 ≡ (some to, m2))
    × (sv.uvmcopy from to (k.procs cur).sz m2 ≡ (true, m3))

abbrev is_err : Code → Bool
is_err err = true
is_err (val n) = false

is_err-val : (c : Code) → is_err c ≡ false → (n : ℕ) × (c ≡ val n)
is_err-val err h = absurd (ground arith)
is_err-val (val n) h = (n, refl)

module _ {M : Type 0} (sv : Services M) where
  abbrev GivesPid : Option (Code × Kernel M) → Type 0
  GivesPid none = Unit
  GivesPid (some r) = is_err r.0 ≡ false

  finish_child-GivesPid :
      (k : Kernel M) (cur np : ℕ) (m : M) → GivesPid (finish_child sv k cur np m)
  unfolding finish_child
  finish_child-GivesPid k cur np m = elim (Option-cases (k.procs cur).trapframe) [
    | inl e ↦ rw e tt
    | inr (_, e) ↦ elim (Option-cases (k.procs np).trapframe) [
      | inl e' ↦ rw (e, e') tt
      | inr (_, e') ↦ elim (Option-cases (k.procs cur).cwd) [
        | inl e'' ↦ rw (e, e', e'') tt
        | inr (_, e'') ↦ elim (Option-cases (k.procs cur).ns) [
          | inl e3 ↦ rw (e, e', e'', e3) tt
          | inr (_, e3) ↦ rw (e, e', e'', e3) refl
        ]
      ]
    ]
  ]

  module _ (cur from page to sz : ℕ) (m m1 m2 m3 : M) (frame : sv.kalloc m ≡ (some page, m1))
      (tables : sv.proc_pagetable page m1 ≡ (some to, m2))
      (copies : sv.uvmcopy from to sz m2 ≡ (true, m3)) where
    -- The caller is in use, and has its memory.
    abbrev Caller : Kernel M → Type 0
    Caller k =
        (is_unused (k.procs cur).state ≡ false)
        × ((k.procs cur).pagetable ≡ some from)
        × ((k.procs cur).sz ≡ sz)

    -- If there is a result, it is a slot with a page table, and memory is as it was made.
    abbrev GivesSlot : Option (Option ℕ × Kernel M) → Type 0
    GivesSlot none = Unit
    GivesSlot (some r) =
        (s : ℕ) × (r.0 ≡ some s)
        × (r.1.rest ≡ m2)
        × ((r.1.procs s).pagetable ≡ some to)
        × Caller r.1

    equip-GivesSlot :
        (k : Kernel M) (s : ℕ) → k.rest ≡ m → s ≢ cur → Caller k → GivesSlot (some (equip sv k s))
    unfolding equip
    equip-GivesSlot k s e ne c =
        let got : sv.kalloc k.rest ≡ (some page, m1) = ap sv.kalloc e ∙ frame in
        let made : sv.proc_pagetable page (sv.kalloc k.rest).1 ≡ (some to, m2) =
          ap (λ r. sv.proc_pagetable page r.1) got ∙ tables in
        rw (equip, got, made)
          (
            s,
            refl,
            ap (λ r. r.1) made,
            ground arith,
            (ground (arith, ne, c.0), ground (arith, ne, c.1), ground (arith, ne, c.2)),
          )

    found-GivesSlot :
        (k : Kernel M) (ns s : ℕ) → k.rest ≡ m → s ≢ cur → Caller k → GivesSlot (found sv k ns s)
    unfolding found
    found-GivesSlot k ns s e ne c =
        elim (Option-cases (
          number_levels (suc (k.spaces ns).depth) (some ns)
            (claimed k.nextpid k.ticks ns (k.procs s)).pids k.spaces)) [
              | inl none_left ↦ rw none_left tt
              | inr (r, numbered) ↦ rw numbered (
                  equip-GivesSlot _ s e ne
                    (ground (arith, ne, c.0), ground (arith, ne, c.1), ground (arith, ne, c.2)))
            ]

    allocproc-GivesSlot :
        (k : Kernel M) (ns s : ℕ)
        → s < nproc
        → is_unused (k.procs s).state ≡ true
        → k.rest ≡ m
        → Caller k
        → GivesSlot (allocproc sv k ns)
    unfolding allocproc
    allocproc-GivesSlot k ns s h free e c =
        elim (Option-cases (find_from (λ s. is_unused (k.procs s).state) nproc 0)) [
          | inl full ↦ absurd (
              ground
                (arith, free, find_from-none (λ s. is_unused (k.procs s).state) nproc 0 s full))
          | inr (t, there) ↦
              let hit = find_from-some (λ s. is_unused (k.procs s).state) nproc 0 t there in
              rw (there, allocproc)
                (found-GivesSlot k ns t e
                  (λ at.
                    let clash : is_unused (k.procs t).state ≡ is_unused (k.procs cur).state =
                      ap (λ u. is_unused (k.procs u).state) at in
                    absurd (ground (arith, clash, hit.0, c.0)))
                  c)
        ]

    copy_process-GivesPid :
        (k : Kernel M) (np : ℕ)
        → k.rest ≡ m2
        → (k.procs np).pagetable ≡ some to
        → Caller k
        → GivesPid (copy_process sv k cur np)
    unfolding copy_process
    copy_process-GivesPid k np e table c =
        let copied : sv.uvmcopy from to (k.procs cur).sz k.rest ≡ (true, m3) =
          ap (λ n. sv.uvmcopy from to n k.rest) c.2 ∙ ap (sv.uvmcopy from to sz) e ∙ copies in
        rw (c.1, table, copied) (finish_child-GivesPid k cur np m3)

    fork-rest :
        (a : Option (Option ℕ × Kernel M))
        → GivesSlot a
        → GivesPid (a >>= λ r. start_child sv cur r.0 r.1)
    unfolding start_child
    fork-rest none h = tt
    fork-rest (some (o, k)) (s, slot, e, table, c) = rw slot (copy_process-GivesPid k s e table c)

    clone-rest :
        (ns : ℕ) (a : Option (Option ℕ × Kernel M))
        → GivesSlot a
        → GivesPid (a >>= λ r. start_head sv cur ns r.0 r.1)
    unfolding start_head
    clone-rest ns none h = tt
    clone-rest ns (some (o, k)) (s, slot, e, table, c) =
        rw slot (copy_process-GivesPid _ s e table c)

    fork-GivesPid :
        (k : Kernel M) (s : ℕ)
        → s < nproc
        → is_unused (k.procs s).state ≡ true
        → k.rest ≡ m
        → Caller k
        → GivesPid (fork sv k cur)
    unfolding fork
    fork-GivesPid k s h free e c = elim (Option-cases (k.procs cur).ns) [
      | inl none_there ↦ rw none_there tt
      | inr (ns, there) ↦
          rw there (fork-rest (allocproc sv k ns) (allocproc-GivesSlot k ns s h free e c))
    ]

    attach-GivesPid :
        (k : Kernel M) (ns outer s : ℕ)
        → s < nproc
        → is_unused (k.procs s).state ≡ true
        → (k.spaces outer).depth + 1 < max_depth
        → k.rest ≡ m
        → Caller k
        → GivesPid (attach sv k cur ns outer)
    unfolding attach populate
    attach-GivesPid k ns outer s h free shallow e c =
        let fits : leb max_depth
              ((update k.spaces ns (record (k.spaces ns) { parent = some outer }) outer).depth + 1)
            ≡ false =
          ground arith in
        rw fits (clone-rest ns (allocproc sv _ ns) (allocproc-GivesSlot _ ns s h free e c))

    clone-GivesPid :
        (k : Kernel M) (s a : ℕ)
        → Inv k
        → Runs k cur
        → s < nproc
        → is_unused (k.procs s).state ≡ true
        → a < numns
        → (k.spaces a).used ≡ false
        → depth_of k cur + 1 < max_depth
        → k.rest ≡ m
        → Caller k
        → GivesPid (clone sv k cur)
    unfolding clone_from enter_namespace
    clone-GivesPid k s a v run h free ha unused_a shallow e c =
        elim (Option-cases (find_from (λ a. not (k.spaces a).used) numns 0)) [
          | inl full ↦
              absurd (
                ground
                  (arith, unused_a, find_from-none (λ a. not (k.spaces a).used) numns 0 a full))
          | inr (b, there) ↦
              let k1 : Kernel M = record k {
                nextnamespace = k.nextnamespace + 1;
                spaces = update k.spaces b (fresh_namespace k.nextnamespace);
              } in
              let shallow' : (k1.spaces (home k cur)).depth + 1 < max_depth =
                ground (arith, shallow) in
              subst GivesPid (sym (clone-allocnamespace k sv cur _ (allocnamespace-some k b there)))
                (rw (v.placed cur run.slot run.live)
                  (attach-GivesPid k1 b (home k cur) s h free shallow' e c))
        ]

  -- In a state that satisfies `Inv` and where the caller runs, if a slot is free and memory does not
  -- run out in the call, `fork` returns a pid.
  pub fork_succeeds :
      (k : Kernel M) (cur s : ℕ)
      → Inv k
      → Runs k cur
      → s < nproc
      → is_unused (k.procs s).state ≡ true
      → HasPages sv k cur
      → (n : ℕ) × (k' : Kernel M) × (fork sv k cur ≡ some (val n, k'))
  fork_succeeds k cur s v run h free (from, page, to, m1, m2, m3, own, frame, tables, copies) =
      let made = fork_lem sv k cur v run in
      let pid =
        fork-GivesPid cur from page to (k.procs cur).sz k.rest m1 m2 m3 frame tables copies k s h
          free refl (run.live, own, refl) in
      let (n, en) = is_err-val made.0.0 (subst GivesPid made.1 pid) in
      (n, made.0.1, made.1 ∙ ap (λ c. some (c, made.0.1)) en)

  -- In a state that satisfies `Inv` and where the caller runs above the last level, if a slot and a
  -- namespace are free and memory does not run out in the call, `clone` returns a pid.
  pub clone_succeeds :
      (k : Kernel M) (cur s a : ℕ)
      → Inv k
      → Runs k cur
      → s < nproc
      → is_unused (k.procs s).state ≡ true
      → a < numns
      → (k.spaces a).used ≡ false
      → depth_of k cur + 1 < max_depth
      → HasPages sv k cur
      → (n : ℕ) × (k' : Kernel M) × (clone sv k cur ≡ some (val n, k'))
  clone_succeeds k cur s a v run h free ha unused_a shallow
        (from, page, to, m1, m2, m3, own, frame, tables, copies) =
      let made = clone_lem sv k cur v run in
      let pid =
        clone-GivesPid cur from page to (k.procs cur).sz k.rest m1 m2 m3 frame tables copies k s a v
          run h free ha unused_a shallow refl (run.live, own, refl) in
      let (n, en) = is_err-val made.0.0 (subst GivesPid made.1 pid) in
      (n, made.0.1, made.1 ∙ ap (λ c. some (c, made.0.1)) en)
