-- ===== src/Proc/PsList.antt =====
-- `ps_list` of kernel/proc.c, and the pids that `sys_getpid` and `sys_getppid` of
-- kernel/sysproc.c report.
pub mod Listing
use jklnkhbv.Base.{
  ℕ, zero, suc, ◌+◌, ◌*◌, Bool, true, false, Option, some, ltb, same, ◌&&◌, ◌>>=◌, if◌then◌else◌, ℤ,
  pos, negsuc,
}
use jklnkhbv.Proc.{Kernel, is_unused, nproc}
use jklnkhbv.Proc.Services.{Services}
use jklnkhbv.Proc.Namespaces.{compare_ns}
use jklnkhbv.Proc.Fork.{Code, err, val}
use jklnkhbv.Proc.Exit.{int_bytes}

-- `if (limit > count) limit = count`, and how many indices are then below the limit.
abbrev pub rounds : ℤ → ℕ → ℕ
rounds (pos n) count = if ltb count n then count else n
rounds (negsuc n) count = 0

module _ {M : Type 0} where
  -- The test of both loops on slot `s`: in use, and in the caller's namespace or below it.
  unfoldable pub shown : Kernel M → ℕ → ℕ → Option Bool
  shown k cur s =
      if is_unused (k.procs s).state
      then some false
      else compare_ns k.spaces (k.procs s).ns (k.procs cur).ns

  -- `for (p = proc; p < &proc[NPROC]; p++) if (…) count_ps++;`
  unfoldable pub count_loop : ℕ → ℕ → Kernel M → ℕ → ℕ → Option ℕ
  count_loop zero s k cur count = some count
  count_loop (suc n) s k cur count = do
    b ← shown k cur s
    count_loop n (s + 1) k cur (if b then count + 1 else count)

  -- The pid of slot `s` that is copied out, at the depth of the caller's namespace.
  abbrev pub pid_at : Kernel M → ℕ → Bool → ℕ → ℕ
  pid_at k depth global s = if global then (k.procs s).pid else (k.procs s).pids depth

  -- `sys_getpid` and `sys_getppid`; `none` is the use of a null pointer.
  unfoldable pub getpid : Kernel M → ℕ → Option ℕ
  getpid k cur = do ns ← (k.procs cur).ns; some ((k.procs cur).pids (k.spaces ns).depth)

  unfoldable pub getppid : Kernel M → ℕ → Option ℕ
  getppid k cur = do
    parent ← (k.procs cur).parent
    ns ← (k.procs cur).ns
    some (
        if same (some ns) (k.procs parent).ns then (k.procs parent).pids (k.spaces ns).depth else 0)

module _ {M : Type 0} (sv : Services M) where
  -- The second loop. The first part of the result is false where a copy has failed.
  unfoldable pub list_loop : ℕ → ℕ → Kernel M → ℕ → ℕ → ℕ → ℕ → ℕ → Bool → ℕ → M → Option (Bool × M)
  list_loop zero s k cur depth table index limit global addr m = some (true, m)
  list_loop (suc n) s k cur depth table index limit global addr m = do
    b ← shown k cur s
    elim (b && ltb index limit) [
      | false ↦ list_loop n (s + 1) k cur depth table index limit global addr m
      | true ↦
          let (copied, m') =
            sv.copyout table (addr + index * 4) (int_bytes (pid_at k depth global s)) m in
          let rest = list_loop n (s + 1) k cur depth table (index + 1) limit global addr m' in
          if copied then rest else some (false, m')
    ]

  unfoldable pub ps_list : Kernel M → ℕ → ℤ → ℕ → Bool → Option (Code × Kernel M)
  ps_list k cur limit addr global = do
    count ← count_loop nproc 0 k cur 0
    ns ← (k.procs cur).ns
    table ← (k.procs cur).pagetable
    (copied, m) ←
        list_loop nproc 0 k cur (k.spaces ns).depth table 0 (rounds limit count) global addr k.rest
    some (if copied then val count else err, record k { rest = m })
