-- ===== src/Proc/PsInfo.antt =====
-- `ps_info` of kernel/proc.c, which copies a `struct process_info` of kernel/process_info.h to a user.
pub mod Layout
use jklnkhbv.Base.{
  ℕ, zero, suc, ◌+◌, Bool, true, false, Option, none, some, List, [], ◌∷◌, ◌++◌, take, same, sub32,
  is_some, ◌==◌, ◌>>=◌, if◌then◌else◌, ℤ, pos, negsuc,
}
use jklnkhbv.Proc.{
  ProcState, unused, used, sleeping, runnable, running, zombie, Proc, Kernel, nproc, nofile,
}
use jklnkhbv.Proc.Services.{Services}
use jklnkhbv.Proc.Fork.{Code, err, val}
use jklnkhbv.Proc.Exit.{int_bytes}

abbrev pub state_size : ℕ
state_size = 16

abbrev pub name_size : ℕ
name_size = 16

-- The table `states`, as the codes of the characters.
abbrev pub state_name : ProcState → List ℕ
state_name unused = 117 ∷ 110 ∷ 117 ∷ 115 ∷ 101 ∷ 100 ∷ []
state_name used = 117 ∷ 115 ∷ 101 ∷ 100 ∷ []
state_name sleeping = 115 ∷ 108 ∷ 101 ∷ 101 ∷ 112 ∷ 32 ∷ []
state_name runnable = 114 ∷ 117 ∷ 110 ∷ 98 ∷ 108 ∷ 101 ∷ []
state_name running = 114 ∷ 117 ∷ 110 ∷ 32 ∷ 32 ∷ 32 ∷ []
state_name zombie = 122 ∷ 111 ∷ 109 ∷ 98 ∷ 105 ∷ 101 ∷ []

abbrev pub is_pid : ℤ → ℕ → Bool
is_pid (pos n) pid = n == pid
is_pid (negsuc n) pid = false

module _ {M : Type 0} where
  -- `for (p = proc; p < &proc[NPROC]; p++) if (p->pid == pid) curr_proc = p;`
  unfoldable pub find_pid : ℕ → ℕ → Kernel M → ℤ → Option ℕ → Option ℕ
  find_pid zero s k pid curr = curr
  find_pid (suc n) s k pid curr =
      find_pid n (s + 1) k pid (if is_pid pid (k.procs s).pid then some s else curr)

  unfoldable pub parent_pid : Kernel M → ℕ → Option ℕ → Option ℕ
  parent_pid k s none = some 0
  parent_pid k s (some parent) =
      if same (k.procs s).ns (k.procs parent).ns
      then ((k.procs s).ns >>= λ ns. some ((k.procs parent).pids (k.spaces ns).depth))
      else some 0

-- `for (i = 0; i < NOFILE; i++) if (ofile[i]) files_count++;`
unfoldable pub count_files : ℕ → ℕ → (ℕ → Option ℕ) → ℕ → ℕ
count_files zero i ofile count = count
count_files (suc n) i ofile count =
    count_files n (i + 1) ofile (if is_some (ofile i) then count + 1 else count)

-- `behind` has what stands in memory after the end of a string.
module _ (behind : List ℕ → List ℕ) where
  -- The first `n` bytes from the start of a string on.
  abbrev pub chars : ℕ → List ℕ → List ℕ
  chars n s = take n (s ++ (0 ∷ behind s))

  -- What is copied, in order, each with the step of `user_ptr` behind it.
  abbrev pub fields : Proc → ℕ → ℕ → List (ℕ × List ℕ)
  fields p ticks ppid =
      (state_size, chars state_size (state_name p.state))
      ∷ (4, int_bytes ppid)
      ∷ (4, int_bytes p.sz)
      ∷ (4, int_bytes (count_files nofile 0 p.ofile 0))
      ∷ (name_size, chars name_size p.name)
      ∷ (4, int_bytes (sub32 ticks p.init_ticks))
      ∷ (4, int_bytes p.run_time)
      ∷ (4, int_bytes p.context_switches)
      ∷ (4, int_bytes (sub32 p.run_time p.kernel_time))
      ∷ (4, int_bytes p.kernel_time)
      ∷ (4, int_bytes p.waiting_time)
      ∷ (4, int_bytes p.read_b)
      ∷ (4, int_bytes p.write_b)
      ∷ (4, int_bytes p.heap_pages)
      ∷ []

  module _ {M : Type 0} (sv : Services M) where
    -- The copies, up to the first that fails.
    unfoldable pub copy_fields : ℕ → ℕ → List (ℕ × List ℕ) → M → Bool × M
    copy_fields table addr [] m = (true, m)
    copy_fields table addr ((size, bytes) ∷ fs) m =
        let (copied, m') = sv.copyout table addr bytes m in
        let rest = copy_fields table (addr + size) fs m' in if copied then rest else (false, m')

    -- `none` is the use of a null pointer.
    unfoldable pub ps_info : Kernel M → ℕ → ℤ → ℕ → Option (Code × Kernel M)
    ps_info k cur pid addr = do
      s ← find_pid nproc 0 k pid none
      table ← (k.procs cur).pagetable
      ppid ← parent_pid k s (k.procs s).parent
      let (copied, m) = copy_fields table addr (fields (k.procs s) k.ticks ppid) k.rest
      some (if copied then val 0 else err, record k { rest = m })
