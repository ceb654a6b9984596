-- ===== src/Proc/Boot.antt =====
-- `procinit`, `namespaceinit` and `userinit` of kernel/proc.c.
pub mod Started
use jklnkhbv.Base.{List, ℕ, ◌+◌, ◌-◌, ◌*◌, ◌^◌, false, Option, none, some, [], ◌∷◌, update, ◌>>=◌}
use jklnkhbv.Proc.{Proc, Namespace, Kernel, Trapframe, unused, runnable, pgsize}
use jklnkhbv.Proc.Services.{Services}
use jklnkhbv.Proc.Namespaces.{allocnamespace}
use jklnkhbv.Proc.Alloc.{allocproc}

-- `TRAMPOLINE` and `KSTACK` of kernel/memlayout.h.
abbrev pub trampoline : ℕ
trampoline = 2 ^ 38 - pgsize

abbrev pub kstack_at : ℕ → ℕ
kstack_at s = trampoline - (s + 1) * 2 * pgsize

abbrev pub zero_proc : Proc
zero_proc = record {
  state = unused;
  chan = none;
  killed = false;
  xstate = 0;
  pid = 0;
  parent = none;
  kstack = 0;
  sz = 0;
  pagetable = none;
  trapframe = none;
  context = record { ra = 0; sp = 0; saved = λ i. 0 };
  ofile = λ i. none;
  cwd = none;
  name = [];
  init_ticks = 0;
  run_time = 0;
  last_run_start = 0;
  last_runnable = 0;
  context_switches = 0;
  kernel_time = 0;
  last_kernel_time = 0;
  waiting_time = 0;
  is_kernel = false;
  read_b = 0;
  write_b = 0;
  heap_pages = 0;
  ns = none;
  pids = λ i. 0;
}

-- The tables after `procinit` and `namespaceinit`, over zeroed memory.
unfoldable pub procinit : ℕ → Proc
procinit s = record zero_proc { kstack = kstack_at s }

unfoldable pub namespaceinit : ℕ → Namespace
namespaceinit a = record {
  parent = none;
  head = none;
  ns_id = 0;
  depth = 0;
  used = false;
  next_ns_pid = 1;
  num_proc = 0;
}

-- The code points of "initcode".
abbrev pub initcode_name : List ℕ
initcode_name = 105 ∷ 110 ∷ 105 ∷ 116 ∷ 99 ∷ 111 ∷ 100 ∷ 101 ∷ []

-- What `userinit` calls besides the services: `uvmfirst` and `namei("/")`.
pub record First (M : Type 0) : Type 0 where
  pub uvmfirst : ℕ → M → M
  pub namei_root : M → Option ℕ × M

-- The slot of the first process, and its namespace, when `userinit` returns.
abbrev pub first_proc : ℕ → ℕ → Trapframe → Option ℕ → Proc → Proc
first_proc ticks ns frame cwd p = record p {
  sz = pgsize;
  trapframe = some (record frame { epc = 0; sp = pgsize });
  name = initcode_name;
  cwd = cwd;
  state = runnable;
  init_ticks = ticks;
  last_runnable = ticks;
  ns = some ns;
}

abbrev pub first_space : ℕ → Namespace → Namespace
first_space s n = record n { head = some s; num_proc = 1 }

module _ {M : Type 0} where
  -- The globals before `userinit`, at `m` of the rest of the kernel.
  unfoldable pub booted : M → Kernel M
  unfolding procinit namespaceinit
  booted m = record {
    procs = procinit;
    spaces = namespaceinit;
    nextpid = 1;
    nextnamespace = 1;
    initproc = none;
    initnamespace = none;
    ticks = 0;
    rest = m;
  }

module _ {M : Type 0} (sv : Services M) (fs : First M) where
  -- `userinit` from the allocated process on. `none` is the use of a null pointer.
  unfoldable pub load_first : Kernel M → ℕ → ℕ → Option (Kernel M)
  load_first k ns s =
      let p = k.procs s in
      do
        table ← p.pagetable
        frame ← p.trapframe
        let (root, m) = fs.namei_root (fs.uvmfirst table k.rest)
        some (record k {
          procs = update k.procs s (first_proc k.ticks ns frame root p);
          spaces = update k.spaces ns (first_space s (k.spaces ns));
          initproc = some s;
          initnamespace = some ns;
          rest = m;
        })

  unfoldable pub userinit : Kernel M → Option (Kernel M)
  userinit k =
      let (ns, k1) = allocnamespace k in
      do space ← ns; (np, k2) ← allocproc sv k1 space; s ← np; load_first k2 space s
