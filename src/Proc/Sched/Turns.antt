-- ===== src/Proc/Sched/Turns.antt =====
-- What the scheduling functions of kernel/proc.c come to one after the other: sleepers and wakers,
-- and the clock of a process that gets the processor and gives it up.
use jklnkhbv.Base.{
  ℕ, ◌-◌, ◌<◌, ◌≤◌, ◌≡◌, ◌≢◌, true, Option, arith, if◌then◌else◌, add32, sub32, u32_mod,
}
use jklnkhbv.Proc.{Kernel, Chan, nproc, runnable, sleeping, is_runnable}
use jklnkhbv.Proc.Sched.{same_chan, sleep, wakeup, dispatch, dispatched, yield_cpu}

module _ {M : Type 0} (k : Kernel M) where
  -- After a process has gone to sleep on one channel, `wakeup` by another process makes it runnable
  -- if the channel is the same, and leaves it asleep otherwise.
  pub wakeup-sleep :
      (cur other : ℕ) (c d : Option Chan)
      → cur < nproc
      → cur ≢ other
      → ((wakeup (sleep k cur c) other d).procs cur).state
        ≡ (if same_chan c d then runnable else sleeping)
  unfolding wakeup sleep
  wakeup-sleep cur other c d h ne = ground arith

  sub32_lem : (a b : ℕ) → b ≤ a → a < u32_mod → sub32 a b ≡ a - b
  sub32_lem a b h lt = omega arith

  -- From the moment the scheduler switches to a runnable process to the one where it yields, at a
  -- time not before and below 2 ^ 32, its run time grows by the time in between, modulo 2 ^ 32, and
  -- it is runnable again.
  pub yield_cpu-dispatch :
      (s now : ℕ)
      → is_runnable (k.procs s).state ≡ true
      → k.ticks ≤ now
      → now < u32_mod
      → let k1 = record ((dispatch k s).1) { ticks = now } in
        let p = (yield_cpu k1 s).procs s in
        (p.run_time ≡ add32 (k.procs s).run_time (now - k.ticks))
        × (p.state ≡ runnable)
        × (p.last_runnable ≡ now)
  unfolding yield_cpu dispatch dispatched
  yield_cpu-dispatch s now r le lt =
      (ground (arith, r, sub32_lem now k.ticks le lt), ground (arith, r), ground (arith, r))
