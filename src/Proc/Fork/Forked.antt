-- ===== src/Proc/Fork/Forked.antt =====
-- `fork`: it comes to its end, keeps the invariant, and makes a child.
use jklnkhbv.Base.{ℕ, ◌≡◌, refl, ap, ◌∙◌, Option, none, some, arith}
use jklnkhbv.Proc.{Kernel}
use jklnkhbv.Proc.Services.{Services}
use jklnkhbv.Proc.Levels.{level_self}
use jklnkhbv.Proc.Inv.{home, depth_of, Inv}
use jklnkhbv.Proc.Alloc.{allocproc}
use jklnkhbv.Proc.Alloc.Born.{Outcome, allocproc-Outcome}
use jklnkhbv.Proc.Fork.{Code, err, val, start_child, fork}
use jklnkhbv.Proc.Fork.Keeps.{Runs}
use jklnkhbv.Proc.PsList.{getpid, getppid}
use jklnkhbv.Proc.Fork.Child.{Child, Prepared, Allocated-Born, copy_Child}

module _ {M : Type 0} (sv : Services M) (k : Kernel M) (cur : ℕ) (v : Inv k)
    (run : Runs k cur) where
  Prepared-self : Prepared k cur (home k cur) k
  Prepared-self = record {
    procs = refl;
    nextpid = refl;
    above = refl;
    reaches = omega arith;
    at_depth = level_self k.spaces (depth_of k cur) (home k cur);
  }

  fork-allocproc :
      (a : Option ℕ × Kernel M)
      → allocproc sv k (home k cur) ≡ some a
      → fork sv k cur ≡ start_child sv cur a.0 a.1
  unfolding fork
  fork-allocproc a e = rw (v.placed cur run.slot run.live, e)

  -- What the child of `fork` reads.
  fork_reads :
      (n np : ℕ) (k' : Kernel M)
      → Child k cur (home k cur) n np k'
      → (k'.spaces (home k cur)).depth ≡ depth_of k cur
      → (getpid k' np ≡ some n) × (getppid k' np ≡ getpid k cur)
  unfolding getpid getppid
  fork_reads n np k' c d =
      let caller = c.others cur c.not_caller in
      (
        ground (arith, c.ns_set, c.returned, d, ap (k'.procs np).pids d),
        rw (c.parent, c.ns_set, caller, v.placed cur run.slot run.live) (ground (arith, d)),
      )

  fork_from :
      (a : Option ℕ × Kernel M)
      → allocproc sv k (home k cur) ≡ some a
      → Outcome k (home k cur) a
      → (r : Code × Kernel M) × (fork sv k cur ≡ some r)
        × Inv r.1
        × ((n : ℕ)
            → r.0 ≡ val n
            → (np : ℕ) × Child k cur (home k cur) n np r.1
              × (getpid r.1 np ≡ some n)
              × (getppid r.1 np ≡ getpid k cur))
  unfolding start_child
  fork_from (none, k1) e o = ((err, k1), fork-allocproc (none, k1) e, o.0, λ n en. cc)
  fork_from (some np, k1) e o =
      let (r, er, vr, c) =
        copy_Child sv k cur (home k cur) np k k1 run Prepared-self
          (Allocated-Born k (home k cur) np k1 (o.1 np refl)) o.0 in
      (
        r,
        fork-allocproc (some np, k1) e ∙ er,
        vr,
        λ n en.
            let (child, d, _) = c n en in
            let (own, parents) = fork_reads n np r.1 child d in (np, child, own, parents),
      )

  -- In a state that satisfies `Inv` and where the caller runs, `fork` comes to its end, and keeps the
  -- invariant. If it does not fail, the caller has a new
  -- child in its own namespace, which reads as its own pid the number that the caller gets, and as
  -- its parent's pid the one that the caller reads as its own.
  pub fork_lem :
      (r : Code × Kernel M) × (fork sv k cur ≡ some r)
      × Inv r.1
      × ((n : ℕ)
          → r.0 ≡ val n
          → (np : ℕ) × Child k cur (home k cur) n np r.1
            × (getpid r.1 np ≡ some n)
            × (getppid r.1 np ≡ getpid k cur))
  fork_lem =
      let (a, e, o) = allocproc-Outcome sv k (home k cur) v (v.homes cur run.slot run.live) in
      fork_from a e o
