-- ===== src/Proc/Examples/Nested.antt =====
-- A process that `clone` of kernel/proc.c has put into a namespace below the root, and that has
-- exited.
use jklnkhbv.Base.{ℕ, ◌<◌, ◌≡◌, refl, true, some, find_from, arith}
use jklnkhbv.Proc.{Kernel, is_unused, is_zombie}
use jklnkhbv.Proc.Namespaces.{allocnamespace, number_levels, get_ns_head, head_loop}
use jklnkhbv.Proc.Alloc.{
  allocproc, found, equip, claimed, freeproc, cleared, free_trapframe, free_pagetable,
}
use jklnkhbv.Proc.Sched.{wakeup, wakeup_all}
use jklnkhbv.Proc.Fork.{
  val, dup_files, finish_child, copy_process, start_head, populate, attach, enter_namespace,
  clone_from, clone,
}
use jklnkhbv.Proc.Fork.Keeps.{Runs}
use jklnkhbv.Proc.Exit.{
  returns, reparent, reparent_loop, adopt, bury, close_files, give_back, drop_cwd, exit, reap, wait,
}
use jklnkhbv.Proc.Inv.{Inv, depth_of}
use jklnkhbv.Proc.Reach.{clones, exits, Step-Inv}
use jklnkhbv.Proc.PsList.{getpid}
use jklnkhbv.Proc.Reach.Views.{wait_global}
use jklnkhbv.Proc.Examples.{machine, kernel_of, or_booted, one_proc, one_proc-Inv, one_proc-Runs}

unfoldable nested : Kernel ℕ
unfolding one_proc clone clone_from enter_namespace attach populate start_head copy_process
    finish_child dup_files allocnamespace allocproc found number_levels equip claimed find_from
nested = kernel_of (clone machine one_proc 0)

one_proc-clone : clone machine one_proc 0 ≡ some (val 2, nested)
unfolding nested one_proc clone clone_from enter_namespace attach populate start_head copy_process
    finish_child dup_files allocnamespace allocproc found number_levels equip claimed find_from
one_proc-clone = refl

nested-Inv : Inv nested
nested-Inv = Step-Inv machine (clones 0 (val 2) one_proc-Runs one_proc-clone) one_proc-Inv

inner-Runs : Runs nested 1
unfolding nested
inner-Runs = record { slot = omega arith; live = refl; table = refl; frame = refl; cwd = refl }

unfoldable inner_zombie : Kernel ℕ
unfolding nested exit reparent reparent_loop adopt bury close_files drop_cwd give_back wakeup
    wakeup_all get_ns_head head_loop
inner_zombie = or_booted (exit machine nested 1 7)

nested-exit : exit machine nested 1 7 ≡ some inner_zombie
unfolding inner_zombie nested exit reparent reparent_loop adopt bury close_files drop_cwd give_back
    wakeup wakeup_all get_ns_head head_loop
nested-exit = refl

inner_zombie-Inv : Inv inner_zombie
inner_zombie-Inv = Step-Inv machine (exits 1 7 inner-Runs nested-exit) nested-Inv

outer-Runs : Runs inner_zombie 0
unfolding inner_zombie
outer-Runs = record { slot = omega arith; live = refl; table = refl; frame = refl; cwd = refl }

unfoldable reaped : Kernel ℕ
unfolding inner_zombie freeproc cleared
reaped = freeproc machine inner_zombie 1

inner_zombie-wait : wait machine inner_zombie 0 0 ≡ some (returns (val 2) reaped)
unfolding reaped inner_zombie wait reap find_from freeproc cleared free_trapframe free_pagetable
inner_zombie-wait = refl

inner_dead : is_zombie (inner_zombie.procs 1).state ≡ true
unfolding inner_zombie
inner_dead = refl

inner_freed : is_unused (reaped.procs 1).state ≡ true
unfolding reaped
inner_freed = refl

inner_below : 0 < depth_of inner_zombie 1
unfolding inner_zombie nested
inner_below = omega arith

wait_global_example : (p : ℕ) × (getpid inner_zombie 1 ≡ some p) × (p < 2)
wait_global_example =
    wait_global inner_zombie 0 machine 0 2 1 reaped inner_zombie-Inv outer-Runs inner_zombie-wait
      (omega arith) inner_dead inner_freed inner_below
