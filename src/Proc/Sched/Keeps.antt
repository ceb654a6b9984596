-- ===== src/Proc/Sched/Keeps.antt =====
-- The scheduling steps change neither the namespaces nor the numbers of a process.
use jklnkhbv.Base.{
  ℕ, refl, Option, some, List, [], ◌∷◌, ◌==◌, arith, Option-cases, Bool-cases, inl, inr, find_from,
}
use jklnkhbv.Proc.{Kernel, nproc, Chan, is_runnable}
use jklnkhbv.Proc.Inv.{IsLive}
use jklnkhbv.Proc.Inv.Quiet.{Quiet, Quiet-refl, Quiet-trans, set_proc-Quiet}
use jklnkhbv.Proc.Sched.{
  dispatch, switched_back, yield_cpu, sleep, tidy_up, wakeup, wakeup_all, kill, setkilled,
}

module _ {M : Type 0} (k : Kernel M) where
  pub dispatch-Quiet : (s : ℕ) → Quiet k (dispatch k s).1
  unfolding dispatch
  dispatch-Quiet s = elim (Bool-cases (is_runnable (k.procs s).state)) [
    | inl e ↦
        rw (e, dispatch)
          (set_proc-Quiet k s _
            (λ l. record { live = ground arith; ns = refl; pids = refl; pid = refl })
            (λ u. (ground arith, ground arith)))
    | inr e ↦ rw (e, dispatch) (Quiet-refl k)
  ]

  pub switched_back-Quiet : (s : ℕ) → Quiet k (switched_back k s)
  unfolding switched_back
  switched_back-Quiet s =
      set_proc-Quiet k s _ (λ l. record { live = l; ns = refl; pids = refl; pid = refl })
        (λ u. (u, refl))

  -- The process that gives the processor up is in use.
  pub yield_cpu-Quiet : (cur : ℕ) → IsLive (k.procs cur) → Quiet k (yield_cpu k cur)
  unfolding yield_cpu
  yield_cpu-Quiet cur l =
      set_proc-Quiet k cur _ (λ _. record { live = l; ns = refl; pids = refl; pid = refl })
        (λ u. (ground arith, ground arith))

  pub sleep-Quiet : (cur : ℕ) (c : Option Chan) → IsLive (k.procs cur) → Quiet k (sleep k cur c)
  unfolding sleep
  sleep-Quiet cur c l =
      set_proc-Quiet k cur _ (λ _. record { live = l; ns = refl; pids = refl; pid = refl })
        (λ u. (ground arith, ground arith))

  pub tidy_up-Quiet : (cur : ℕ) → Quiet k (tidy_up k cur)
  unfolding tidy_up
  tidy_up-Quiet cur =
      set_proc-Quiet k cur _ (λ l. record { live = l; ns = refl; pids = refl; pid = refl })
        (λ u. (u, refl))

  pub setkilled-Quiet : (s : ℕ) → Quiet k (setkilled k s)
  unfolding setkilled
  setkilled-Quiet s =
      set_proc-Quiet k s _ (λ l. record { live = l; ns = refl; pids = refl; pid = refl })
        (λ u. (u, refl))

  pub wakeup-Quiet : (cur : ℕ) (c : Option Chan) → Quiet k (wakeup k cur c)
  unfolding wakeup
  wakeup-Quiet cur c = record {
    slots = λ s h l. record {
      live = ground arith;
      ns = ground arith;
      pids = ground arith;
      pid = ground arith;
    };
    spaces = refl;
    nextpid = refl;
    initns = refl;
    vacant = λ o s h u. ground (arith, o s h);
  }

  pub kill-Quiet : (pid : ℕ) → Quiet k (kill k pid).1
  unfolding kill
  kill-Quiet pid = elim (Option-cases (find_from (λ s. (k.procs s).pid == pid) nproc 0)) [
    | inl e ↦ rw (e, kill) (Quiet-refl k)
    | inr (s, e) ↦
        rw (e, kill)
          (set_proc-Quiet k s _
            (λ l. record {
              live = ground arith;
              ns = ground arith;
              pids = ground arith;
              pid = ground arith;
            })
            (λ u. (ground arith, ground arith)))
  ]

pub wakeup_all-Quiet :
    {M : Type 0} (k : Kernel M) (cur : ℕ) (cs : List Chan) → Quiet k (wakeup_all k cur cs)
unfolding wakeup_all
wakeup_all-Quiet k cur [] = Quiet-refl k
wakeup_all-Quiet k cur (c ∷ cs) =
    Quiet-trans (wakeup-Quiet k cur (some c)) (wakeup_all-Quiet (wakeup k cur (some c)) cur cs)
