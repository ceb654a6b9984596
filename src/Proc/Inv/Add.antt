-- ===== src/Proc/Inv/Add.antt =====
-- A new process in a free slot keeps the invariant.
use jklnkhbv.Base.{ℕ, ◌≤◌, ◌<◌, ◌≡◌, ◌≢◌, some, arith}
use jklnkhbv.Proc.{Proc, Kernel, nproc}
use jklnkhbv.Proc.Levels.{level}
use jklnkhbv.Proc.Inv.{IsLive, IsHome, depth_of, space_of, root_of, Inv}
use jklnkhbv.Proc.Alloc.{set_proc}

module _ {M : Type 0} (k : Kernel M) (s : ℕ) (p : Proc) (a : ℕ) where
  -- What a process that goes to slot `s` must meet: a home, pids below the counters there, and
  -- above those of every other process of the same namespace.
  pub record Fits : Type 0 where
    pub live : IsLive p
    pub ns : p.ns ≡ some a
    pub home_fits : IsHome k.spaces (root_of k) a
    pub below :
        (i : ℕ)
        → i ≤ (k.spaces a).depth
        → p.pids i < (k.spaces (level k.spaces (k.spaces a).depth a i)).next_ns_pid
    pub apart :
        (t i : ℕ)
        → t < nproc
        → IsLive (k.procs t)
        → i ≤ depth_of k t
        → i ≤ (k.spaces a).depth
        → level k.spaces (k.spaces a).depth a i ≡ space_of k t i
        → (k.procs t).pids i ≢ p.pids i
    pub global_fits : p.pid ≡ p.pids 0
    pub smaller_fits : (i : ℕ) → i ≤ (k.spaces a).depth → 0 < i → p.pids i < p.pid

  pub Inv-add : Inv k → Fits → Inv (set_proc k s p)
  Inv-add v f = record {
    placed = λ t h l. ground (arith, v.placed t h, f.ns);
    homes = λ t h l. ground (arith, v.homes t h, f.ns, f.home_fits);
    issued = λ t i h l le. ground (arith, v.issued t i h, f.ns, f.below i);
    distinct = λ t u i ht hu ne lt lu le_t le_u e.
        ground (arith, v.distinct t u i ht hu ne, f.ns, f.apart t i ht, f.apart u i hu);
    global = λ t h l. ground (arith, v.global t h, f.global_fits);
    smaller = λ t i h l le pos. ground (arith, v.smaller t i h, f.ns, f.smaller_fits i);
    root_next = v.root_next;
    inner_next = v.inner_next;
    vacant = λ t h l. ground (arith, v.vacant t h, f.live);
    started = v.started;
    root_used = v.root_used;
  }
