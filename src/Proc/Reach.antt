-- ===== src/Proc/Reach.antt =====
-- The steps of the process table of kernel/proc.c, each one the work of one call or of one round
-- of the scheduler, and what holds in every state that they reach.
pub mod Views
use jklnkhbv.Base.{
  ℕ, ◌≤◌, ◌<◌, ◌≡◌, ◌≢◌, refl, sym, ◌∙◌, true, false, Bool, Option, none, some, arith, same, subst,
  Bool-cases, inl, inr,
}
use jklnkhbv.Proc.{Proc, Kernel, nproc, Chan}
use jklnkhbv.Proc.Services.{Services}
use jklnkhbv.Proc.Inv.{IsLive, Inv, home, depth_of, space_of}
use jklnkhbv.Proc.Inv.Carry.{SameProcess}
use jklnkhbv.Proc.Inv.Quiet.{Inv-Quiet, rest-Quiet, set_proc-Quiet}
use jklnkhbv.Proc.Alloc.{set_proc}
use jklnkhbv.Proc.Sched.{
  dispatch, switched_back, yield_cpu, sleep, tidy_up, wakeup, kill, setkilled,
}
use jklnkhbv.Proc.Sched.Keeps.{
  dispatch-Quiet, switched_back-Quiet, yield_cpu-Quiet, sleep-Quiet, tidy_up-Quiet, wakeup-Quiet,
  kill-Quiet, setkilled-Quiet,
}
use jklnkhbv.Proc.Fork.{Code, err, val, fork, clone}
use jklnkhbv.Proc.Fork.Keeps.{Runs}
use jklnkhbv.Proc.Fork.Forked.{fork_lem}
use jklnkhbv.Proc.Fork.Cloned.{clone_lem}
use jklnkhbv.Proc.Exit.{Wait, returns, sleeps, exit, wait}
use jklnkhbv.Proc.Exit.Exited.{exit_lem}
use jklnkhbv.Proc.Exit.Waited.{wait_lem, WaitOutcome, IsZombieChild}
use jklnkhbv.Proc.PsList.{pid_at, getpid}
use jklnkhbv.Proc.PsList.Listing.{in_view}
use jklnkhbv.Proc.Boot.{First, booted, userinit}
use jklnkhbv.Proc.Boot.Started.{HasMemory, userinit_lem}

module _ {M : Type 0} (sv : Services M) where
  -- A step; `edit` is a write of other fields of a process that is in use, as in `growproc`,
  -- `exec`, `open` and `chdir`, and `outside` is a step of another part of the kernel.
  pub data Step : Kernel M → Kernel M → Type 0 where
    forks :
        {k k' : Kernel M} (cur : ℕ) (c : Code)
        → Runs k cur
        → fork sv k cur ≡ some (c, k')
        → Step k k'
    clones :
        {k k' : Kernel M} (cur : ℕ) (c : Code)
        → Runs k cur
        → clone sv k cur ≡ some (c, k')
        → Step k k'
    exits :
        {k k' : Kernel M} (cur status : ℕ) → Runs k cur → exit sv k cur status ≡ some k' → Step k k'
    collects :
        {k k' : Kernel M} (cur addr : ℕ) (c : Code)
        → Runs k cur
        → wait sv k cur addr ≡ some (returns c k')
        → Step k k'
    awaits :
        {k k' : Kernel M} (cur addr : ℕ)
        → Runs k cur
        → wait sv k cur addr ≡ some (sleeps k')
        → Step k k'
    dispatches : {k : Kernel M} (s : ℕ) → Step k (dispatch k s).1
    returns_cpu : {k : Kernel M} (s : ℕ) → Step k (switched_back k s)
    yields : {k : Kernel M} (cur : ℕ) → IsLive (k.procs cur) → Step k (yield_cpu k cur)
    falls_asleep :
        {k : Kernel M} (cur : ℕ) (c : Option Chan) → IsLive (k.procs cur) → Step k (sleep k cur c)
    tidies : {k : Kernel M} (cur : ℕ) → Step k (tidy_up k cur)
    wakes_up : {k : Kernel M} (cur : ℕ) (c : Option Chan) → Step k (wakeup k cur c)
    kills : {k : Kernel M} (pid : ℕ) → Step k (kill k pid).1
    marks : {k : Kernel M} (s : ℕ) → Step k (setkilled k s)
    edit :
        {k : Kernel M} (s : ℕ) (p : Proc)
        → IsLive (k.procs s)
        → SameProcess (k.procs s) p
        → IsLive p
        → Step k (set_proc k s p)
    ticks_on : {k : Kernel M} (n : ℕ) → Step k (record k { ticks = n })
    outside : {k : Kernel M} (m : M) → Step k (record k { rest = m })

  -- The states that the steps lead to from `k0`.
  pub data Reach (k0 : Kernel M) : Kernel M → Type 0 where
    here : Reach k0 k0
    after : {k k' : Kernel M} → Reach k0 k → Step k k' → Reach k0 k'

  abbrev ResultInv : Option (Code × Kernel M) → Type 0
  ResultInv none = Unit
  ResultInv (some r) = Inv r.1

  abbrev WaitInv : Wait M → Type 0
  WaitInv (returns c k) = Inv k
  WaitInv (sleeps k) = Inv k

  abbrev PassInv : Option (Wait M) → Type 0
  PassInv none = Unit
  PassInv (some w) = WaitInv w

  result_Inv :
      (o : Option (Code × Kernel M)) (c : Code) (k' : Kernel M)
      → (r : Code × Kernel M) × (o ≡ some r) × Inv r.1
      → o ≡ some (c, k')
      → Inv k'
  result_Inv o c k' r e = subst ResultInv (sym r.1 ∙ e) r.2

  Wait-Inv : (k : Kernel M) (cur addr : ℕ) (w : Wait M) → WaitOutcome sv k cur addr w → WaitInv w
  Wait-Inv k cur addr (returns (val n) k') o = o.6
  Wait-Inv k cur addr (returns err k') o = o.1
  Wait-Inv k cur addr (sleeps k') o = o.6

  wait-Inv :
      (k : Kernel M) (cur addr : ℕ) (w : Wait M)
      → Inv k
      → Runs k cur
      → wait sv k cur addr ≡ some w
      → WaitInv w
  wait-Inv k cur addr w v run e =
      let (w', e', o) = wait_lem sv k cur addr v run in
      subst PassInv (sym e' ∙ e) (Wait-Inv k cur addr w' o)

  exit-Inv :
      (k k' : Kernel M) (cur status : ℕ)
      → Inv k
      → Runs k cur
      → exit sv k cur status ≡ some k'
      → Inv k'
  unfolding exit
  exit-Inv k k' cur status v run e = elim (Bool-cases (same (some cur) k.initproc)) [
    | inl first ↦ absurd (ground (arith, first, e))
    | inr other ↦
        let r = exit_lem sv k cur status v run.slot run.live run.cwd other in
        subst Inv (ground (arith, e, r.1)) r.2
  ]

  pub Step-Inv : {k k' : Kernel M} → Step k k' → Inv k → Inv k'
  Step-Inv (forks {k} {k'} cur c run e) v =
      let r = fork_lem sv k cur v run in result_Inv _ c k' (r.0, r.1, r.2) e
  Step-Inv (clones {k} {k'} cur c run e) v =
      let r = clone_lem sv k cur v run in result_Inv _ c k' (r.0, r.1, r.2) e
  Step-Inv (exits {k} {k'} cur status run e) v = exit-Inv k k' cur status v run e
  Step-Inv (collects {k} cur addr c run e) v = wait-Inv k cur addr _ v run e
  Step-Inv (awaits {k} cur addr run e) v = wait-Inv k cur addr _ v run e
  Step-Inv (dispatches {k} s) v = Inv-Quiet v (dispatch-Quiet k s)
  Step-Inv (returns_cpu {k} s) v = Inv-Quiet v (switched_back-Quiet k s)
  Step-Inv (yields {k} cur l) v = Inv-Quiet v (yield_cpu-Quiet k cur l)
  Step-Inv (falls_asleep {k} cur c l) v = Inv-Quiet v (sleep-Quiet k cur c l)
  Step-Inv (tidies {k} cur) v = Inv-Quiet v (tidy_up-Quiet k cur)
  Step-Inv (wakes_up {k} cur c) v = Inv-Quiet v (wakeup-Quiet k cur c)
  Step-Inv (kills {k} pid) v = Inv-Quiet v (kill-Quiet k pid)
  Step-Inv (marks {k} s) v = Inv-Quiet v (setkilled-Quiet k s)
  Step-Inv (edit {k} s p l p_same lp) v =
      Inv-Quiet v (set_proc-Quiet k s p (λ _. p_same) (λ u. absurd (ground arith)))
  Step-Inv (ticks_on {k} n) v = Inv-Quiet v (record {
    slots = λ s h l. record { live = l; ns = refl; pids = refl; pid = refl };
    spaces = refl;
    nextpid = refl;
    initns = refl;
    vacant = λ o. o;
  })
  Step-Inv (outside {k} m) v = Inv-Quiet v (rest-Quiet k m)

  Reach-Inv : {k0 k : Kernel M} → Reach k0 k → Inv k0 → Inv k
  Reach-Inv here v = v
  Reach-Inv (after r s) v = Step-Inv s (Reach-Inv r v)

  -- Where the first process gets its pages, the invariant holds in every state that the steps
  -- reach from the one that `userinit` leaves.
  pub booted-Inv :
      (fs : First M) (m : M) (k0 k : Kernel M)
      → HasMemory sv fs m
      → userinit sv fs (booted m) ≡ some k0
      → Reach k0 k
      → Inv k
  booted-Inv fs m k0 k h e r =
      let (k1, e1, v1) = userinit_lem sv fs m h in
      Reach-Inv r (subst Inv (ground (arith, e, e1)) v1)
