-- ===== src/Proc/Fork/Child.antt =====
-- The new process that `fork` and `clone` leave when they succeed.
use jklnkhbv.Base.{ℕ, ◌≤◌, ◌<◌, ◌≡◌, ◌≢◌, sym, ap, ◌∙◌, true, some, update, arith, is_some}
use jklnkhbv.Proc.{Proc, Kernel, Namespace, is_unused, nproc, runnable}
use jklnkhbv.Proc.Services.{Services}
use jklnkhbv.Proc.Levels.{Spaces, at, level, level_self}
use jklnkhbv.Proc.Inv.{IsLive, home, depth_of, Inv}
use jklnkhbv.Proc.Alloc.Born.{Born}
use jklnkhbv.Proc.Fork.{Code, val, copy_process}
use jklnkhbv.Proc.Fork.Keeps.{Runs, Copied, return_value, copy_process-Outcome}

module _ {M : Type 0} where
  -- From `k` to `k'` the caller `cur` has got a child in the free slot `np`, of the namespace `ns`,
  -- and the call returned `n`.
  pub record Child (k : Kernel M) (cur ns n np : ℕ) (k' : Kernel M) : Type 0 where
    pub slot : np < nproc
    pub free : is_unused (k.procs np).state ≡ true
    pub ready : (k'.procs np).state ≡ runnable
    pub parent : (k'.procs np).parent ≡ some cur
    pub zero_in_child : return_value (k'.procs np).trapframe ≡ some 0
    pub sz : (k'.procs np).sz ≡ (k.procs cur).sz
    pub ns_set : (k'.procs np).ns ≡ some ns
    pub pid_set : (k'.procs np).pid ≡ k.nextpid
    pub returned : n ≡ (k'.procs np).pids (depth_of k cur)
    pub next : n ≡ (k.spaces (home k cur)).next_ns_pid
    pub others : (t : ℕ) → t ≢ np → k'.procs t ≡ k.procs t
    pub not_caller : cur ≢ np

  -- The table `k0` in which the child is allocated has the processes of `k`, and the caller's
  -- namespace stands in it at the caller's depth above the child's namespace `ns`.
  pub record Prepared (k : Kernel M) (cur ns : ℕ) (k0 : Kernel M) : Type 0 where
    pub procs : k0.procs ≡ k.procs
    pub nextpid : k0.nextpid ≡ k.nextpid
    pub above : k0.spaces (home k cur) ≡ k.spaces (home k cur)
    pub reaches : depth_of k cur ≤ (k0.spaces ns).depth
    pub at_depth : level k0.spaces (k0.spaces ns).depth ns (depth_of k cur) ≡ home k cur

  -- `allocproc` has filled the slot `np` between `k0` and `k1`.
  pub record Allocated (k0 : Kernel M) (ns np : ℕ) (k1 : Kernel M) : Type 0 where
    pub slot : np < nproc
    pub free : is_unused (k0.procs np).state ≡ true
    pub live : IsLive (k1.procs np)
    pub ns_set : (k1.procs np).ns ≡ some ns
    pub numbered :
        (i : ℕ)
        → i ≤ (k0.spaces ns).depth
        → (k1.procs np).pids i ≡ (k0.spaces (level k0.spaces (k0.spaces ns).depth ns i)).next_ns_pid
    pub pid_set : (k1.procs np).pid ≡ k0.nextpid
    pub others : (t : ℕ) → t ≢ np → k1.procs t ≡ k0.procs t
    pub depths : (a : ℕ) → (k1.spaces a).depth ≡ (k0.spaces a).depth
    pub frame : is_some (k1.procs np).trapframe ≡ true
    pub table : is_some (k1.procs np).pagetable ≡ true

  pub Allocated-Born :
      (k0 : Kernel M) (ns np : ℕ) (k1 : Kernel M) → Born k0 ns np k1 → Allocated k0 ns np k1
  Allocated-Born k0 ns np k1 b = record {
    slot = b.slot;
    free = b.free;
    live = ground (arith, b.in_use);
    ns_set = b.ns_set;
    numbered = b.numbered;
    pid_set = b.pid_set;
    others = b.others;
    depths = λ a. ground (arith, b.spaces a);
    frame = b.frame;
    table = b.table;
  }

  -- `ns->head = np`
  abbrev pub crowned : Kernel M → ℕ → ℕ → Kernel M
  crowned k ns np = record k {
    spaces = update k.spaces ns (record (k.spaces ns) { head = some np });
  }

  pub Allocated-crowned :
      (k0 : Kernel M) (ns np : ℕ) (k1 : Kernel M)
      → Born k0 ns np k1
      → Allocated k0 ns np (crowned k1 ns np)
  Allocated-crowned k0 ns np k1 b = record {
    slot = b.slot;
    free = b.free;
    live = ground (arith, b.in_use);
    ns_set = b.ns_set;
    numbered = b.numbered;
    pid_set = b.pid_set;
    others = b.others;
    depths = λ a. ground (arith, b.spaces a);
    frame = b.frame;
    table = b.table;
  }

  module _ (k : Kernel M) (cur ns np : ℕ) (k0 k1 : Kernel M) (run : Runs k cur)
      (pre : Prepared k cur ns k0) (b : Allocated k0 ns np k1) where
    free_slot : is_unused (k.procs np).state ≡ true
    free_slot = sym (ap (λ (f : ℕ → Proc). is_unused (f np).state) pre.procs) ∙ b.free

    not_self : cur ≢ np
    not_self e = ground (arith, run.live, free_slot, ap (λ s. is_unused (k.procs s).state) e)

    pub caller_kept : k1.procs cur ≡ k.procs cur
    caller_kept = b.others cur not_self ∙ ap (λ (f : ℕ → Proc). f cur) pre.procs

    pub Runs-Allocated : Runs k1 cur
    Runs-Allocated = record {
      slot = run.slot;
      live = ap (λ (p : Proc). is_unused p.state) caller_kept ∙ run.live;
      table = ap (λ (p : Proc). is_some p.pagetable) caller_kept ∙ run.table;
      frame = ap (λ (p : Proc). is_some p.trapframe) caller_kept ∙ run.frame;
      cwd = ap (λ (p : Proc). is_some p.cwd) caller_kept ∙ run.cwd;
    }

    depth_kept : depth_of k1 cur ≡ depth_of k cur
    depth_kept =
        ap (λ (p : Proc). (k1.spaces (at p.ns)).depth) caller_kept
        ∙ b.depths (home k cur)
        ∙ ap (λ (a : Namespace). a.depth) pre.above

    pub Child-Copied : (n : ℕ) (k' : Kernel M) → Copied k1 cur np n k' → Child k cur ns n np k'
    Child-Copied n k' c = record {
      slot = b.slot;
      free = free_slot;
      ready = c.ready;
      parent = c.parent;
      zero_in_child = c.zero;
      sz = c.sz ∙ ap (λ (p : Proc). p.sz) caller_kept;
      ns_set = c.ns ∙ b.ns_set;
      pid_set = c.pid ∙ b.pid_set ∙ pre.nextpid;
      returned =
          c.returned
          ∙ ap (k1.procs np).pids depth_kept
          ∙ ap (λ (f : ℕ → ℕ). f (depth_of k cur)) (sym c.pids);
      next =
          c.returned
          ∙ ap (k1.procs np).pids depth_kept
          ∙ b.numbered (depth_of k cur) pre.reaches
          ∙ ap (λ a. (k0.spaces a).next_ns_pid) pre.at_depth
          ∙ ap (λ (a : Namespace). a.next_ns_pid) pre.above;
      not_caller = not_self;
      others = λ t ne. c.others t ne ∙ b.others t ne ∙ ap (λ (f : ℕ → Proc). f t) pre.procs;
    }

module _ {M : Type 0} (sv : Services M) (k : Kernel M) (cur ns np : ℕ) (k0 k1 : Kernel M)
    (run : Runs k cur) (pre : Prepared k cur ns k0) (b : Allocated k0 ns np k1) (v1 : Inv k1) where
  -- The end of `fork` and `clone`: a failure, or a child whose namespace reads its pid.
  pub copy_Child :
      (r : Code × Kernel M) × (copy_process sv k1 cur np ≡ some r)
      × Inv r.1
      × ((n : ℕ)
          → r.0 ≡ val n
          → Child k cur ns n np r.1
            × ((r.1.spaces ns).depth ≡ (k0.spaces ns).depth)
            × ((r.1.procs np).pids (k0.spaces ns).depth ≡ (k0.spaces ns).next_ns_pid))
  copy_Child =
      let (r, er, o) =
        copy_process-Outcome sv k1 cur np v1 (Runs-Allocated k cur ns np k0 k1 run pre b) b.live
          b.frame b.table in
      (
        r,
        er,
        o.0,
        λ n en.
            let c = o.1 n en in
            let child = Child-Copied k cur ns np k0 k1 run pre b n r.1 c in
            (
              child,
              ap (λ (f : Spaces). (f ns).depth) c.spaces ∙ b.depths ns,
              ap (λ (f : ℕ → ℕ). f (k0.spaces ns).depth) c.pids
                  ∙ b.numbered (k0.spaces ns).depth (omega arith)
                  ∙ ap (λ a. (k0.spaces a).next_ns_pid)
                      (level_self k0.spaces (k0.spaces ns).depth ns),
            ),
      )
