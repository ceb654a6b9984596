-- ===== src/Proc/Sched.antt =====
-- The functions of kernel/proc.c that change the state of a process: `scheduler`, `yield`,
-- `sleep`, `wakeup`, `kill`, `setkilled` and `killed`. A function that gives the processor up
-- (`sched`) is modelled in two parts, before and after it.
pub mod Keeps
pub mod Turns
use jklnkhbv.Base.{
  ℕ, Bool, true, false, not, Option, none, some, List, [], ◌∷◌, add32, sub32, ltb, ◌==◌, ◌&&◌,
  find_from, if◌then◌else◌,
}
use jklnkhbv.Proc.{Proc, Kernel, Chan, sleeping, runnable, running, is_sleeping, is_runnable, nproc}
use jklnkhbv.Proc.Alloc.{set_proc}

abbrev pub same_chan : Option Chan → Option Chan → Bool
same_chan none none = true
same_chan none (some d) = false
same_chan (some c) none = false
same_chan (some c) (some d) = c.kind == d.kind && c.index == d.index

-- The address of a process, as a channel.
abbrev pub proc_chan : Option ℕ → Option Chan
proc_chan none = none
proc_chan (some s) = some (record { kind = 0; index = s })

-- What the body of the loop of `scheduler` does before it switches to the process.
unfoldable pub dispatched : ℕ → Proc → Proc
dispatched ticks p = record p {
  state = running;
  waiting_time = add32 p.waiting_time (sub32 ticks p.last_runnable);
  last_run_start = ticks;
  last_kernel_time = if p.is_kernel then ticks else p.last_kernel_time;
}

-- The time of a process that stops to run.
abbrev pub stop_clocks : ℕ → Proc → Proc
stop_clocks ticks p = record p {
  run_time = add32 p.run_time (sub32 ticks p.last_run_start);
  kernel_time =
      if p.is_kernel then add32 p.kernel_time (sub32 ticks p.last_kernel_time) else p.kernel_time;
}

abbrev pub awake : ℕ → Proc → Proc
awake ticks p = record p { state = runnable; last_runnable = ticks }

abbrev pub kill_slot : ℕ → Proc → Proc
kill_slot ticks p =
    let q = record p { killed = true } in if is_sleeping p.state then awake ticks q else q

module _ {M : Type 0} where
  -- One round of the loop of `scheduler`, up to `swtch`. The flag tells whether it switches.
  unfoldable pub dispatch : Kernel M → ℕ → Bool × Kernel M
  unfolding dispatched
  dispatch k s =
      if is_runnable (k.procs s).state
      then (true, set_proc k s (dispatched k.ticks (k.procs s)))
      else (false, k)

  -- The rest of that round, after `swtch` has come back.
  unfoldable pub switched_back : Kernel M → ℕ → Kernel M
  switched_back k s =
      set_proc k s (record (k.procs s) { context_switches = add32 (k.procs s).context_switches 1 })

  -- `yield`, up to `sched`.
  unfoldable pub yield_cpu : Kernel M → ℕ → Kernel M
  yield_cpu k cur =
      set_proc k cur
        (record (stop_clocks k.ticks (k.procs cur)) { state = runnable; last_runnable = k.ticks })

  -- `sleep`, up to `sched`, and after it.
  unfoldable pub sleep : Kernel M → ℕ → Option Chan → Kernel M
  sleep k cur chan =
      set_proc k cur (stop_clocks k.ticks (record (k.procs cur) { chan = chan; state = sleeping }))

  unfoldable pub tidy_up : Kernel M → ℕ → Kernel M
  tidy_up k cur = set_proc k cur (record (k.procs cur) { chan = none })

  -- The test of `wakeup` on slot `s`.
  abbrev pub wakes : Kernel M → ℕ → Option Chan → ℕ → Bool
  wakes k cur chan s =
      ltb s nproc
      && not (s == cur)
      && is_sleeping (k.procs s).state
      && same_chan (k.procs s).chan chan

  -- The rounds of the loop are independent: each one looks at and writes its own slot.
  unfoldable pub wakeup : Kernel M → ℕ → Option Chan → Kernel M
  wakeup k cur chan = record k {
    procs = λ s. if wakes k cur chan s then awake k.ticks (k.procs s) else k.procs s;
  }

  unfoldable pub wakeup_all : Kernel M → ℕ → List Chan → Kernel M
  wakeup_all k cur [] = k
  wakeup_all k cur (c ∷ cs) = wakeup_all (wakeup k cur (some c)) cur cs

  -- The flag tells whether a process was found.
  unfoldable pub kill : Kernel M → ℕ → Bool × Kernel M
  kill k pid = elim (find_from (λ s. (k.procs s).pid == pid) nproc 0) [
    | none ↦ (false, k)
    | some s ↦ (true, set_proc k s (kill_slot k.ticks (k.procs s)))
  ]

  unfoldable pub setkilled : Kernel M → ℕ → Kernel M
  setkilled k s = set_proc k s (record (k.procs s) { killed = true })

  abbrev pub killed : Kernel M → ℕ → Bool
  killed k s = (k.procs s).killed
