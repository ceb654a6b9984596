-- ===== src/Proc/Fork.antt =====
-- `fork` and `clone` of kernel/proc.c.
pub mod Keeps
pub mod Child
pub mod Forked
pub mod Cloned
pub mod Refused
pub mod Succeeds
pub mod Graft
use jklnkhbv.Base.{ℕ, zero, suc, ◌+◌, Option, none, some, update, take, leb, ◌>>=◌, if◌then◌else◌}
use jklnkhbv.Proc.{Proc, Kernel, Trapframe, runnable, nofile, max_depth}
use jklnkhbv.Proc.Services.{Services}
use jklnkhbv.Proc.Namespaces.{allocnamespace}
use jklnkhbv.Proc.Alloc.{freeproc, allocproc}

-- The result of a system call: -1, or a number.
pub data Code : Type 0 where
  err : Code
  val : ℕ → Code

-- `*(np->trapframe) = *(p->trapframe); np->trapframe->a0 = 0`: the page stays.
abbrev pub child_trapframe : Trapframe → Trapframe → Trapframe
child_trapframe of_child of_parent = record of_parent { page = of_child.page; a0 = 0 }

-- The slot of the child when `fork` or `clone` returns.
abbrev pub child_of : ℕ → ℕ → Proc → Trapframe → (ℕ → Option ℕ) → ℕ → Proc → Proc
child_of cur ticks p frame ofile cwd np = record np {
  sz = p.sz;
  trapframe = some frame;
  ofile = ofile;
  cwd = some cwd;
  name = take 15 p.name;
  parent = some cur;
  state = runnable;
  last_runnable = ticks;
  init_ticks = ticks;
  run_time = 0;
  context_switches = 0;
  kernel_time = 0;
  waiting_time = 0;
}

module _ {M : Type 0} (sv : Services M) where
  -- `for(i = 0; i < NOFILE; i++) if(p->ofile[i]) np->ofile[i] = filedup(p->ofile[i]);`
  unfoldable pub dup_files : ℕ → ℕ → (ℕ → Option ℕ) → (ℕ → Option ℕ) → M → (ℕ → Option ℕ) × M
  dup_files zero i from to m = (to, m)
  dup_files (suc n) i from to m = elim (from i) [
    | none ↦ dup_files n (i + 1) from to m
    | some f ↦ dup_files n (i + 1) from (update to i (some f)) (sv.filedup f m)
  ]

  -- What `fork` and `clone` both do once user memory is copied to the slot `np`. `none` is the use
  -- of a null pointer.
  unfoldable pub finish_child : Kernel M → ℕ → ℕ → M → Option (Code × Kernel M)
  finish_child k cur np m =
      let p = k.procs cur in
      let c = k.procs np in
      do
        parent_frame ← p.trapframe
        child_frame ← c.trapframe
        cwd ← p.cwd
        ns ← p.ns
        let (ofile, m') = dup_files nofile 0 p.ofile c.ofile m
        let frame = child_trapframe child_frame parent_frame
        some (
          val (c.pids (k.spaces ns).depth),
          record k {
            procs = update k.procs np (child_of cur k.ticks p frame ofile cwd c);
            rest = sv.idup cwd m';
          },
        )

  -- What both do once the slot `np` is allocated.
  unfoldable pub copy_process : Kernel M → ℕ → ℕ → Option (Code × Kernel M)
  copy_process k cur np = do
    from ← (k.procs cur).pagetable
    to ← (k.procs np).pagetable
    let (copied, m) = sv.uvmcopy from to (k.procs cur).sz k.rest
    if copied then finish_child k cur np m else some (err, freeproc sv (record k { rest = m }) np)

  -- The result of `allocproc`, passed on by `fork`.
  unfoldable pub start_child : ℕ → Option ℕ → Kernel M → Option (Code × Kernel M)
  start_child cur none k = some (err, k)
  start_child cur (some np) k = copy_process k cur np

  unfoldable pub fork : Kernel M → ℕ → Option (Code × Kernel M)
  fork k cur = do ns ← (k.procs cur).ns; (np, k1) ← allocproc sv k ns; start_child cur np k1

  -- The result of `allocproc`, passed on by `clone`, which makes the child the head of `ns`.
  unfoldable pub start_head : ℕ → ℕ → Option ℕ → Kernel M → Option (Code × Kernel M)
  start_head cur ns none k = some (err, k)
  start_head cur ns (some np) k =
      copy_process
        (record k { spaces = update k.spaces ns (record (k.spaces ns) { head = some np }) }) cur np

  -- `clone` from the new namespace `ns`, which now has its depth.
  unfoldable pub populate : Kernel M → ℕ → ℕ → Option (Code × Kernel M)
  populate k cur ns = do (np, k1) ← allocproc sv k ns; start_head cur ns np k1

  -- `clone` from the allocated namespace `ns` on, below the namespace `outer` of the caller. A
  -- namespace that would be too deep stays allocated.
  unfoldable pub attach : Kernel M → ℕ → ℕ → ℕ → Option (Code × Kernel M)
  attach k cur ns outer =
      let attached = update k.spaces ns (record (k.spaces ns) { parent = some outer }) in
      let depth = (attached outer).depth + 1 in
      if leb max_depth depth
      then some (err, record k { spaces = attached })
      else populate
          (record k { spaces = update attached ns (record (attached ns) { depth = depth }) }) cur ns

  unfoldable pub enter_namespace : Kernel M → ℕ → ℕ → Option (Code × Kernel M)
  enter_namespace k cur ns = do outer ← (k.procs cur).ns; attach k cur ns outer

  unfoldable pub clone_from : ℕ → Option ℕ → Kernel M → Option (Code × Kernel M)
  clone_from cur none k = some (err, k)
  clone_from cur (some ns) k = enter_namespace k cur ns

  unfoldable pub clone : Kernel M → ℕ → Option (Code × Kernel M)
  clone k cur = let (ns, k1) = allocnamespace k in clone_from cur ns k1
