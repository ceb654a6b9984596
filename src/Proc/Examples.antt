-- ===== src/Proc/Examples.antt =====
-- The theorems about the process table at concrete states: a machine with a page allocator that
-- counts pages up, on which the first process forks, and the child exits and is waited for.
mod Deep
mod Nested
mod Witnesses
mod Progress
mod Report
use jklnkhbv.Base.{
  pos, ℕ, suc, ◌+◌, ◌<◌, ◌≡◌, ◌≢◌, refl, true, false, Option, none, some, arith, [], find_from,
  take, length, map, same, if◌then◌else◌,
}
use jklnkhbv.Proc.{Kernel, nproc, numns, max_depth, zombie, runnable}
use jklnkhbv.Proc.Fork.Child.{Child}
use jklnkhbv.Proc.Fork.Forked.{fork_lem}
use jklnkhbv.Proc.Fork.Cloned.{clone_lem}
use jklnkhbv.Proc.Exit.Reparent.{heir_of, Adopted, reparent_lem, reparent_head}
use jklnkhbv.Proc.Exit.Exited.{Awaits, exit_lem}
use jklnkhbv.Proc.Exit.Waited.{WaitOutcome, IsZombieChild, wait_lem}
use jklnkhbv.Proc.PsList.{rounds, pid_at, ps_list, getpid, getppid}
use jklnkhbv.Proc.PsList.Listing.{view, in_view, copy_pids, ps_list_lem}
use jklnkhbv.Proc.Levels.{at, level}
use jklnkhbv.Proc.Levels.Numbering.{on_path}
use jklnkhbv.Proc.Levels.Walks.{heir, compare_ns_lem, get_ns_head_lem}
use jklnkhbv.Proc.Alloc.Born.{Outcome, allocproc-Outcome}
use jklnkhbv.Proc.Services.{Services}
use jklnkhbv.Proc.Inv.{Inv, IsHome, root_of, home, depth_of}
use jklnkhbv.Proc.Fork.{
  Code, val, err, fork, start_child, copy_process, finish_child, dup_files, clone,
}
use jklnkhbv.Proc.Fork.Keeps.{Runs}
use jklnkhbv.Proc.Boot.{First, booted, userinit, load_first, procinit, namespaceinit}
use jklnkhbv.Proc.Boot.Started.{HasMemory, userinit_lem}
use jklnkhbv.Proc.Namespaces.{allocnamespace, number_levels}
use jklnkhbv.Proc.Alloc.{allocproc, found, equip, claimed}
use jklnkhbv.Proc.Reach.{Step-Inv, forks, exits, here, after, booted-Inv}
use jklnkhbv.Proc.Exit.{
  is_child, Wait, returns, exit, wait, reparent, reparent_loop, adopt, bury, close_files, drop_cwd,
  give_back, reap,
}
use jklnkhbv.Proc.Sched.{wakeup, wakeup_all}
use jklnkhbv.Proc.Namespaces.{get_ns_head, head_loop, compare_ns}
use jklnkhbv.Proc.Alloc.{freeproc, cleared, free_trapframe, free_pagetable}

abbrev pub machine : Services ℕ
machine = record {
  kalloc = λ m. (some m, m + 1);
  kfree = λ page m. m;
  proc_pagetable = λ page m. (some m, m + 1);
  proc_freepagetable = λ table sz m. m;
  uvmcopy = λ from to sz m. (true, m);
  copyout = λ table addr bytes m. (true, m);
  filedup = λ f m. m;
  idup = λ i m. m;
  begin_op = λ m. m;
  fileclose = λ f m. (m, []);
  iput = λ i m. (m, []);
  end_op = λ m. (m, []);
  forkret = 0;
}

abbrev pub disk : First ℕ
disk = record { uvmfirst = λ table m. m; namei_root = λ m. (some 1, m) }

abbrev pub kernel_of : Option (Code × Kernel ℕ) → Kernel ℕ
kernel_of none = booted 0
kernel_of (some r) = r.1

abbrev pub or_booted : Option (Kernel ℕ) → Kernel ℕ
or_booted none = booted 0
or_booted (some k) = k

pub machine-HasMemory : HasMemory machine disk 1
machine-HasMemory = (1, 2, 2, 3, refl, refl)

unfoldable pub one_proc : Kernel ℕ
unfolding userinit booted procinit namespaceinit allocnamespace allocproc found number_levels equip
    claimed load_first find_from
one_proc = or_booted (userinit machine disk (booted 1))

pub one_proc-userinit : userinit machine disk (booted 1) ≡ some one_proc
unfolding one_proc userinit booted procinit namespaceinit allocnamespace allocproc found
    number_levels equip claimed load_first find_from
one_proc-userinit = refl

pub one_proc-Runs : Runs one_proc 0
unfolding one_proc
one_proc-Runs = record { slot = omega arith; live = refl; table = refl; frame = refl; cwd = refl }

pub one_proc-Inv : Inv one_proc
one_proc-Inv = booted-Inv machine disk 1 one_proc one_proc machine-HasMemory one_proc-userinit here

unfoldable pub two_procs : Kernel ℕ
unfolding one_proc fork start_child copy_process finish_child dup_files allocproc found
    number_levels equip claimed find_from
two_procs = kernel_of (fork machine one_proc 0)

pub one_proc-fork : fork machine one_proc 0 ≡ some (val 2, two_procs)
unfolding two_procs one_proc fork start_child copy_process finish_child dup_files allocproc found
    number_levels equip claimed find_from
one_proc-fork = refl

pub two_procs-Inv : Inv two_procs
two_procs-Inv = Step-Inv machine (forks 0 (val 2) one_proc-Runs one_proc-fork) one_proc-Inv

pub child-Runs : Runs two_procs 1
unfolding two_procs
child-Runs = record { slot = omega arith; live = refl; table = refl; frame = refl; cwd = refl }

pub parent-Runs : Runs two_procs 0
unfolding two_procs
parent-Runs = record { slot = omega arith; live = refl; table = refl; frame = refl; cwd = refl }

unfoldable pub one_zombie : Kernel ℕ
unfolding two_procs exit reparent reparent_loop adopt bury close_files drop_cwd give_back wakeup
    wakeup_all get_ns_head head_loop
one_zombie = or_booted (exit machine two_procs 1 7)

pub two_procs-exit : exit machine two_procs 1 7 ≡ some one_zombie
unfolding one_zombie two_procs exit reparent reparent_loop adopt bury close_files drop_cwd give_back
    wakeup wakeup_all get_ns_head head_loop
two_procs-exit = refl

pub one_zombie-Inv : Inv one_zombie
one_zombie-Inv = Step-Inv machine (exits 1 7 child-Runs two_procs-exit) two_procs-Inv

pub waiter-Runs : Runs one_zombie 0
unfolding one_zombie
waiter-Runs = record { slot = omega arith; live = refl; table = refl; frame = refl; cwd = refl }

unfoldable pub collected : Kernel ℕ
unfolding one_zombie freeproc cleared
collected = freeproc machine one_zombie 1

pub one_zombie-wait : wait machine one_zombie 0 0 ≡ some (returns (val 2) collected)
unfolding collected one_zombie wait reap find_from freeproc cleared free_trapframe free_pagetable
one_zombie-wait = refl

pub root-IsHome : IsHome one_proc.spaces (root_of one_proc) 0
unfolding one_proc
root-IsHome = one_proc-Inv.homes 0 (omega arith) refl
