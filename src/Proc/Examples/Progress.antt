-- ===== src/Proc/Examples/Progress.antt =====
-- The theorems on success of kernel/proc.c at the states of the parent module.
use jklnkhbv.Base.{ℕ, ◌+◌, ◌<◌, ◌≡◌, refl, true, false, some, arith}
use jklnkhbv.Proc.{Kernel, is_unused, max_depth}
use jklnkhbv.Proc.Inv.{depth_of}
use jklnkhbv.Proc.Fork.{val, fork, clone}
use jklnkhbv.Proc.Fork.Succeeds.{HasPages, fork_succeeds, clone_succeeds}
use jklnkhbv.Proc.Examples.{machine, one_proc, two_procs, two_procs-Inv, child-Runs}

two_procs-HasPages : HasPages machine two_procs 1
unfolding two_procs one_proc
two_procs-HasPages = (_, _, _, _, _, _, refl, refl, refl, refl)

slot_2_free : is_unused (two_procs.procs 2).state ≡ true
unfolding two_procs one_proc
slot_2_free = refl

space_1_free : (two_procs.spaces 1).used ≡ false
unfolding two_procs one_proc
space_1_free = refl

child_shallow : depth_of two_procs 1 + 1 < max_depth
unfolding two_procs one_proc
child_shallow = omega arith

fork_succeeds_example : (n : ℕ) × (k' : Kernel ℕ) × (fork machine two_procs 1 ≡ some (val n, k'))
fork_succeeds_example =
    fork_succeeds machine two_procs 1 2 two_procs-Inv child-Runs (omega arith) slot_2_free
      two_procs-HasPages

clone_succeeds_example : (n : ℕ) × (k' : Kernel ℕ) × (clone machine two_procs 1 ≡ some (val n, k'))
clone_succeeds_example =
    clone_succeeds machine two_procs 1 2 1 two_procs-Inv child-Runs (omega arith) slot_2_free
      (omega arith) space_1_free child_shallow two_procs-HasPages
