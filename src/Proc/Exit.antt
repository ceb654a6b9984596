-- ===== src/Proc/Exit.antt =====
-- `reparent`, `exit` and `wait` of kernel/proc.c.
pub mod Reparent
pub mod Keeps
pub mod Exited
pub mod Waited
use jklnkhbv.Base.{
  ℕ, zero, suc, ◌+◌, ◌/◌, ◌%◌, Bool, Option, none, some, List, [], ◌∷◌, update, same, ◌==◌, ◌&&◌,
  ◌>>=◌, find_from, if◌then◌else◌,
}
use jklnkhbv.Proc.{Proc, Kernel, zombie, is_zombie, nproc, nofile}
use jklnkhbv.Proc.Services.{Services}
use jklnkhbv.Proc.Namespaces.{get_ns_head}
use jklnkhbv.Proc.Alloc.{set_proc, freeproc}
use jklnkhbv.Proc.Sched.{proc_chan, stop_clocks, wakeup, wakeup_all, sleep, killed}
use jklnkhbv.Proc.Fork.{Code, err, val}

-- The bytes of an int, the lowest first.
unfoldable pub int_bytes : ℕ → List ℕ
int_bytes n = n % 256 ∷ n / 256 % 256 ∷ n / 65536 % 256 ∷ n / 16777216 % 256 ∷ []

abbrev pub as_zombie : ℕ → ℕ → Proc → Proc
as_zombie ticks status p = record (stop_clocks ticks p) { xstate = status; state = zombie }

module _ {M : Type 0} where
  abbrev pub is_child : Kernel M → ℕ → ℕ → Bool
  is_child k p s = same (k.procs s).parent (some p)

  -- The body of the loop of `reparent` for slot `s`.
  unfoldable pub adopt : Kernel M → ℕ → ℕ → ℕ → Option (Kernel M)
  adopt k cur p s =
      if is_child k p s
      then (do
        heir ← get_ns_head k.spaces (k.procs s).ns
        some (wakeup (set_proc k s (record (k.procs s) { parent = heir })) cur (proc_chan heir)))
      else some k

  unfoldable pub reparent_loop : ℕ → ℕ → Kernel M → ℕ → ℕ → Option (Kernel M)
  reparent_loop zero s k cur p = some k
  reparent_loop (suc n) s k cur p = adopt k cur p s >>= λ k1. reparent_loop n (s + 1) k1 cur p

  -- The caller's process `cur` is the one that `wakeup` passes over.
  unfoldable pub reparent : Kernel M → ℕ → ℕ → Option (Kernel M)
  reparent k cur p = reparent_loop nproc 0 k cur p

  -- The end of `exit`: the parent is woken, and the process becomes a zombie.
  unfoldable pub bury : Kernel M → ℕ → ℕ → Kernel M
  bury k cur status =
      let k1 = wakeup k cur (proc_chan (k.procs cur).parent) in
      set_proc k1 cur (as_zombie k1.ticks status (k1.procs cur))

-- What one pass of the loop of `wait` comes to.
pub data Wait (M : Type 0) : Type 0 where
  returns : Code → Kernel M → Wait M
  sleeps : Kernel M → Wait M

module _ {M : Type 0} where
  -- A pass of `wait` that finds no zombie, up to the end of its part of `sleep`.
  unfoldable pub no_zombie : Kernel M → ℕ → Wait M
  no_zombie k cur = elim (find_from (λ s. is_child k cur s) nproc 0) [
    | none ↦ returns err k
    | some s ↦ if killed k cur then returns err k else sleeps (sleep k cur (proc_chan (some cur)))
  ]

module _ {M : Type 0} (sv : Services M) where
  -- `for(int fd = 0; fd < NOFILE; fd++) if(p->ofile[fd]) …`
  unfoldable pub close_files : ℕ → ℕ → Kernel M → ℕ → Kernel M
  close_files zero fd k cur = k
  close_files (suc n) fd k cur = elim ((k.procs cur).ofile fd) [
    | none ↦ close_files n (fd + 1) k cur
    | some f ↦
        let (m, chans) = sv.fileclose f k.rest in
        let k1 = wakeup_all (record k { rest = m }) cur chans in
        let p = k1.procs cur in
        close_files n (fd + 1) (set_proc k1 cur (record p { ofile = update p.ofile fd none })) cur
  ]

  -- `begin_op(); iput(p->cwd); end_op(); p->cwd = 0;`
  unfoldable pub give_back : Kernel M → ℕ → ℕ → Kernel M
  give_back k cur cwd =
      let (m, chans) = sv.iput cwd (sv.begin_op k.rest) in
      let (m', chans') = sv.end_op m in
      let k1 = wakeup_all (wakeup_all (record k { rest = m' }) cur chans) cur chans' in
      set_proc k1 cur (record (k1.procs cur) { cwd = none })

  unfoldable pub drop_cwd : Kernel M → ℕ → Option (Kernel M)
  drop_cwd k cur = do cwd ← (k.procs cur).cwd; some (give_back k cur cwd)

  -- `exit`, up to `sched`. `none` is a panic.
  unfoldable pub exit : Kernel M → ℕ → ℕ → Option (Kernel M)
  exit k cur status = if same (some cur) k.initproc then none else (do
    k1 ← drop_cwd (close_files nofile 0 k cur) cur
    k2 ← reparent k1 cur cur
    some (bury k2 cur status))

  -- A zombie child is found in slot `s`: its status goes to `addr`, and the slot is freed.
  unfoldable pub reap : Kernel M → ℕ → ℕ → ℕ → Option (Code × Kernel M)
  reap k cur addr s =
      let c = k.procs s in
      if addr == 0 then some (val c.pid, freeproc sv k s) else (do
        pagetable ← (k.procs cur).pagetable
        let (copied, m) = sv.copyout pagetable addr (int_bytes c.xstate) k.rest
        let k1 = record k { rest = m }
        some (if copied then (val c.pid, freeproc sv k1 s) else (err, k1)))

  -- One pass of the loop of `wait`.
  unfoldable pub wait : Kernel M → ℕ → ℕ → Option (Wait M)
  wait k cur addr =
      elim (find_from (λ s. is_child k cur s && is_zombie (k.procs s).state) nproc 0) [
        | some s ↦ do (code, k1) ← reap k cur addr s; some (returns code k1)
        | none ↦ some (no_zombie k cur)
      ]
