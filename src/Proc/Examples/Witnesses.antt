-- ===== src/Proc/Examples/Witnesses.antt =====
-- The theorems about the process table of kernel/proc.c at the states of the parent module.
use jklnkhbv.Base.{
  pos, ℕ, suc, ◌<◌, ◌≡◌, ◌≢◌, refl, true, false, some, arith, length, same, if◌then◌else◌,
}
use jklnkhbv.Proc.{Kernel, nproc, max_depth, zombie, runnable}
use jklnkhbv.Proc.Fork.Child.{Child}
use jklnkhbv.Proc.Fork.Forked.{fork_lem}
use jklnkhbv.Proc.Fork.Cloned.{clone_lem}
use jklnkhbv.Proc.Exit.Reparent.{heir_of, reparent_head}
use jklnkhbv.Proc.Exit.Exited.{Awaits, exit_lem}
use jklnkhbv.Proc.Exit.Waited.{WaitOutcome, wait_lem}
use jklnkhbv.Proc.PsList.{shown, ps_list, getpid, getppid}
use jklnkhbv.Proc.PsList.Listing.{view, copy_pids, pids_of, wanted, ps_list_lem}
use jklnkhbv.Proc.Levels.{at}
use jklnkhbv.Proc.Inv.{Inv, home, depth_of}
use jklnkhbv.Proc.Fork.{Code, val, err, fork, clone}
use jklnkhbv.Proc.Boot.{booted, userinit}
use jklnkhbv.Proc.Boot.Started.{userinit_lem}
use jklnkhbv.Proc.Reach.{forks, exits, here, after, booted-Inv}
use jklnkhbv.Proc.Exit.{is_child, Wait, exit, wait, reparent, reparent_loop, adopt}
use jklnkhbv.Proc.Sched.{wakeup}
use jklnkhbv.Proc.Namespaces.{get_ns_head, head_loop, compare_ns, compare_loop}
use jklnkhbv.Proc.Examples.Deep.{deep, deep-Runs, deep-Inv, deep_free}
use jklnkhbv.Proc.Reach.Views.{view_distinct}
use jklnkhbv.Proc.Sched.{wakeup}
use jklnkhbv.Proc.Fork.Refused.{clone_deep}
use jklnkhbv.Proc.Examples.{
  machine, disk, or_booted, machine-HasMemory, one_proc, one_proc-userinit, one_proc-Runs,
  one_proc-Inv, two_procs, one_proc-fork, two_procs-Inv, child-Runs, parent-Runs, one_zombie,
  two_procs-exit, one_zombie-Inv, waiter-Runs,
}

booted-Inv_example : Inv one_zombie
booted-Inv_example =
    booted-Inv machine disk 1 one_proc one_zombie machine-HasMemory one_proc-userinit (
      after (after here (forks 0 (val 2) one_proc-Runs one_proc-fork))
        (exits 1 7 child-Runs two_procs-exit))

fork_lem_example :
    (r : Code × Kernel ℕ) × (fork machine one_proc 0 ≡ some r)
    × Inv r.1
    × ((n : ℕ)
        → r.0 ≡ val n
        → (np : ℕ) × Child one_proc 0 (home one_proc 0) n np r.1
          × (getpid r.1 np ≡ some n)
          × (getppid r.1 np ≡ getpid one_proc 0))
fork_lem_example = fork_lem machine one_proc 0 one_proc-Inv one_proc-Runs

clone_lem_example :
    (r : Code × Kernel ℕ) × (clone machine two_procs 1 ≡ some r)
    × Inv r.1
    × ((n : ℕ)
        → r.0 ≡ val n
        → (a : ℕ) × ((two_procs.spaces a).used ≡ false)
          × (suc (depth_of two_procs 1) < max_depth)
          × (np : ℕ) × Child two_procs 1 a n np r.1
          × (getpid r.1 np ≡ some 1)
          × (getppid r.1 np ≡ some 0))
clone_lem_example = clone_lem machine two_procs 1 two_procs-Inv child-Runs

child_not_first : same (some 1) two_procs.initproc ≡ false
unfolding two_procs one_proc
child_not_first = refl

exit_lem_example :
    (k' : Kernel ℕ) × (exit machine two_procs 1 7 ≡ some k')
    × Inv k'
    × ((k'.procs 1).state ≡ zombie)
    × ((k'.procs 1).xstate ≡ 7)
    × ((t : ℕ)
        → t < nproc
        → (k'.procs t).parent
          ≡ (if is_child two_procs 1 t then heir_of two_procs t else (two_procs.procs t).parent))
    × ((q : ℕ)
        → q < nproc
        → q ≢ 1
        → is_child two_procs 1 1 ≡ false
        → (two_procs.procs 1).parent ≡ some q
        → Awaits two_procs q
        → (k'.procs q).state ≡ runnable)
exit_lem_example =
    exit_lem machine two_procs 1 7 two_procs-Inv child-Runs.slot child-Runs.live child-Runs.cwd
      child_not_first

wait_lem_example :
    (w : Wait ℕ) × (wait machine one_zombie 0 0 ≡ some w) × WaitOutcome machine one_zombie 0 0 w
wait_lem_example = wait_lem machine one_zombie 0 0 one_zombie-Inv waiter-Runs

ps_list_lem_example :
    let all = view two_procs 0 in
    let pids = pids_of two_procs 0 false (wanted (pos 5) all) in
    let (copied, m) =
      copy_pids machine (at (two_procs.procs 0).pagetable) 4096 0 pids two_procs.rest in
    ps_list machine two_procs 0 (pos 5) 4096 false
    ≡ some (if copied then val (length all) else err, record two_procs { rest = m })
ps_list_lem_example = ps_list_lem two_procs 0 two_procs-Inv parent-Runs machine (pos 5) 4096 false

first_seen : shown two_procs 0 0 ≡ some true
unfolding two_procs shown compare_ns compare_loop
first_seen = refl

child_seen : shown two_procs 0 1 ≡ some true
unfolding two_procs shown compare_ns compare_loop
child_seen = refl

view_distinct_example :
    ((two_procs.procs 0).pids (depth_of two_procs 0)
      ≢ (two_procs.procs 1).pids (depth_of two_procs 0))
    × ((two_procs.procs 0).pid ≢ (two_procs.procs 1).pid)
view_distinct_example =
    view_distinct two_procs 0 machine disk 1 one_proc 0 1 machine-HasMemory one_proc-userinit
      (after here (forks 0 (val 2) one_proc-Runs one_proc-fork)) parent-Runs parent-Runs.slot
      child-Runs.slot (omega arith) first_seen child_seen

userinit_lem_example : (k : Kernel ℕ) × (userinit machine disk (booted 1) ≡ some k) × Inv k
userinit_lem_example = userinit_lem machine disk 1 machine-HasMemory

unfoldable handed_over : Kernel ℕ
unfolding two_procs reparent reparent_loop adopt wakeup get_ns_head head_loop
handed_over = or_booted (reparent two_procs 0 0)

two_procs-reparent : reparent two_procs 0 0 ≡ some handed_over
unfolding handed_over two_procs reparent reparent_loop adopt wakeup get_ns_head head_loop
two_procs-reparent = refl

is_child_1 : is_child two_procs 0 1 ≡ true
unfolding two_procs
is_child_1 = refl

head_0 : (two_procs.spaces (home two_procs 1)).head ≡ some 0
unfolding two_procs one_proc
head_0 = refl

reparent_head_example : (handed_over.procs 1).parent ≡ some 0
reparent_head_example =
    reparent_head two_procs 0 0 1 handed_over two_procs-Inv child-Runs.slot is_child_1 head_0
      two_procs-reparent

clone_deep_example :
    (k' : Kernel ℕ) × (clone machine deep 0 ≡ some (err, k'))
    × Inv k'
    × ((k'.spaces 8).used ≡ true)
    × (k'.procs ≡ deep.procs)
clone_deep_example = clone_deep machine deep 0 deep-Inv deep-Runs 8 (omega arith) deep_free
