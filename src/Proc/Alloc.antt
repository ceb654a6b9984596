-- ===== src/Proc/Alloc.antt =====
-- `allocproc` and `freeproc` of kernel/proc.c.
pub mod Keeps
pub mod Born
use jklnkhbv.Base.{
  ℕ, suc, ◌+◌, false, Option, none, some, [], update, add32, sub32, find_from, ◌>>=◌, if◌then◌else◌,
}
use jklnkhbv.Proc.{Proc, Kernel, Trapframe, unused, used, is_unused, nproc, pgsize}
use jklnkhbv.Proc.Services.{Services}
use jklnkhbv.Proc.Namespaces.{number_levels, allocpid}

-- A word of a page that `kalloc` has filled with 5.
abbrev pub junk : ℕ
junk = 0x0505050505050505

abbrev pub junk_trapframe : ℕ → Trapframe
junk_trapframe page = record { page = page; epc = junk; sp = junk; a0 = junk; regs = λ i. junk }

-- The fields that `freeproc` leaves in the slot.
unfoldable pub cleared : ℕ → Proc → Proc
cleared ticks p = record p {
  trapframe = none;
  pagetable = none;
  sz = 0;
  pid = 0;
  parent = none;
  name = [];
  chan = none;
  killed = false;
  xstate = 0;
  state = unused;
  init_ticks = 0;
  kernel_time = if p.is_kernel then sub32 ticks p.last_kernel_time else 0;
  waiting_time = 0;
  last_runnable = 0;
  run_time = add32 p.run_time (sub32 ticks p.last_run_start);
  ns = none;
  pids = λ i. 0;
}

-- The fields that `allocproc` sets before it numbers the process.
unfoldable pub claimed : ℕ → ℕ → ℕ → Proc → Proc
claimed pid ticks ns p = record p {
  pid = pid;
  state = used;
  read_b = 0;
  write_b = 0;
  heap_pages = 0;
  last_run_start = ticks;
  is_kernel = false;
  kernel_time = 0;
  last_kernel_time = ticks;
  ns = some ns;
}

module _ {M : Type 0} where
  abbrev pub set_proc : Kernel M → ℕ → Proc → Kernel M
  set_proc k s p = record k { procs = update k.procs s p }

module _ {M : Type 0} (sv : Services M) where
  unfoldable pub free_trapframe : Option Trapframe → M → M
  free_trapframe none m = m
  free_trapframe (some t) m = sv.kfree t.page m

  unfoldable pub free_pagetable : Option ℕ → ℕ → M → M
  free_pagetable none sz m = m
  free_pagetable (some pt) sz m = sv.proc_freepagetable pt sz m

  unfoldable pub freeproc : Kernel M → ℕ → Kernel M
  unfolding free_trapframe free_pagetable
  freeproc k s =
      let p = k.procs s in
      let m = free_trapframe p.trapframe k.rest in
      record k {
        procs = update k.procs s (cleared k.ticks p);
        rest = free_pagetable p.pagetable p.sz m;
      }

  -- The slot at its last state before `allocproc` returns it.
  abbrev pub equipped : ℕ → ℕ → Proc → Proc
  equipped page pagetable p = record p {
    trapframe = some (junk_trapframe page);
    pagetable = some pagetable;
    context = record { ra = sv.forkret; sp = p.kstack + pgsize; saved = λ i. 0 };
  }

  -- The two allocations of `allocproc` for the numbered slot `s`.
  unfoldable pub equip : Kernel M → ℕ → Option ℕ × Kernel M
  unfolding freeproc
  equip k s =
      let (frame, m) = sv.kalloc k.rest in
      elim frame [
        | none ↦ (
          none,
          freeproc
              (record k {
                procs = update k.procs s (record (k.procs s) { trapframe = none });
                rest = m;
              })
              s,
        )
        | some page ↦
            let (table, m') = sv.proc_pagetable page m in
            elim table [
              | none ↦ (
                none,
                freeproc
                    (record k {
                      procs = update k.procs s (record (k.procs s) {
                        trapframe = some (junk_trapframe page);
                        pagetable = none;
                      });
                      rest = m';
                    })
                    s,
              )
              | some pt ↦ (
                some s,
                record k { procs = update k.procs s (equipped page pt (k.procs s)); rest = m' },
              )
            ]
      ]

  -- `allocproc` from the label `found` on, for the slot `s`.
  unfoldable pub found : Kernel M → ℕ → ℕ → Option (Option ℕ × Kernel M)
  unfolding claimed
  found k ns s =
      let (pid, k1) = allocpid k in
      let p = claimed pid k.ticks ns (k.procs s) in
      do
        (pids, spaces) ← number_levels (suc (k.spaces ns).depth) (some ns) p.pids k.spaces
        some (
            equip
              (record k1 { procs = update k.procs s (record p { pids = pids }); spaces = spaces })
              s)

  -- `none` is the use of a null pointer; the inner `none` is the null pointer that is returned.
  unfoldable pub allocproc : Kernel M → ℕ → Option (Option ℕ × Kernel M)
  allocproc k ns = elim (find_from (λ s. is_unused (k.procs s).state) nproc 0) [
    | none ↦ some (none, k)
    | some s ↦ found k ns s
  ]
