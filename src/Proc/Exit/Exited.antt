-- ===== src/Proc/Exit/Exited.antt =====
-- The theorems about `exit`.
use jklnkhbv.Base.{
  ℕ, ◌<◌, ◌≡◌, ◌≢◌, ◌⊎◌, refl, ◌∙◌, true, false, some, arith, if◌then◌else◌, Bool-cases, inl, inr,
  same, is_some,
}
use jklnkhbv.Proc.{Kernel, nproc, sleeping, runnable, zombie}
use jklnkhbv.Proc.Services.{Services}
use jklnkhbv.Proc.Inv.{IsLive, Inv, Vacant}
use jklnkhbv.Proc.Inv.Quiet.{Quiet, Quiet-trans, Inv-Quiet, set_proc-Quiet}
use jklnkhbv.Proc.Sched.{wakeup, proc_chan}
use jklnkhbv.Proc.Sched.Keeps.{wakeup-Quiet}
use jklnkhbv.Proc.Exit.{is_child, exit, bury}
use jklnkhbv.Proc.Exit.Reparent.{heir_of, heir_of-Quiet, reparent_lem, child-IsLive}
use jklnkhbv.Proc.Exit.Keeps.{release_all}

module _ {M : Type 0} where
  bury-Quiet : (k : Kernel M) (cur status : ℕ) → IsLive (k.procs cur) → Quiet k (bury k cur status)
  unfolding bury wakeup
  bury-Quiet k cur status l = Quiet-trans (wakeup-Quiet k cur _) (
      set_proc-Quiet _ cur _
        (λ _. record { live = ground arith; ns = refl; pids = refl; pid = refl })
        (λ u. absurd (ground arith)))

  -- `q` sleeps in `wait`, or has been woken.
  abbrev pub Awaits : Kernel M → ℕ → Type 0
  Awaits k q =
      ((k.procs q).state ≡ runnable)
      ⊎ (((k.procs q).state ≡ sleeping) × ((k.procs q).chan ≡ proc_chan (some q)))

  bury-Exited : (k : Kernel M) (cur status : ℕ) → ((bury k cur status).procs cur).state ≡ zombie
  unfolding bury
  bury-Exited k cur status = ground arith

  bury_xstate : (k : Kernel M) (cur status : ℕ) → ((bury k cur status).procs cur).xstate ≡ status
  unfolding bury
  bury_xstate k cur status = ground arith

  bury_parents :
      (k : Kernel M) (cur status t : ℕ) → ((bury k cur status).procs t).parent ≡ (k.procs t).parent
  unfolding bury wakeup
  bury_parents k cur status t = ground arith

  bury_wakes :
      (k : Kernel M) (cur status q : ℕ)
      → q < nproc
      → q ≢ cur
      → (k.procs cur).parent ≡ some q
      → Awaits k q
      → ((bury k cur status).procs q).state ≡ runnable
  unfolding bury wakeup
  bury_wakes k cur status q h ne e w = ground arith

  Awaits-stirred :
      (k k' : Kernel M) (q : ℕ)
      → ((k'.procs q).state ≡ (k.procs q).state)
        ⊎ (((k.procs q).state ≡ sleeping) × ((k'.procs q).state ≡ runnable))
      → (k'.procs q).chan ≡ (k.procs q).chan
      → Awaits k q
      → Awaits k' q
  Awaits-stirred k k' q s c w = ground arith

module _ {M : Type 0} (sv : Services M) (k : Kernel M) (cur status : ℕ) (v : Inv k)
    (h : cur < nproc) (l : IsLive (k.procs cur)) (has_cwd : is_some (k.procs cur).cwd ≡ true)
    (not_init : same (some cur) k.initproc ≡ false) where
  exit_parents :
      (k1 k2 : Kernel M)
      → Quiet k k1
      → ((t : ℕ) → (k1.procs t).parent ≡ (k.procs t).parent)
      → Vacant k1
      → ((t : ℕ)
          → t < nproc
          → (k2.procs t).parent ≡ (if is_child k1 cur t then heir_of k1 t else (k1.procs t).parent))
      → (t : ℕ) → t < nproc
      → ((bury k2 cur status).procs t).parent
        ≡ (if is_child k cur t then heir_of k t else (k.procs t).parent)
  exit_parents k1 k2 q same_parents o moved t ht =
      bury_parents k2 cur status t ∙ (elim (Bool-cases (is_child k1 cur t)) [
        | inl c ↦ ground (
          arith,
          moved t ht,
          same_parents t,
          heir_of-Quiet k k1 t q ht (child-IsLive k1 cur t o ht c),
        )
        | inr c ↦ ground (arith, moved t ht, same_parents t)
      ])

  -- In a state that satisfies `Inv`, `exit` of a process in use that has a current directory and is
  -- not the first one comes to its end and keeps the invariant. The process is a zombie with the
  -- status; each child of its goes to the head of the nearest namespace that has one, from the
  -- child's own one upwards; no other parent changes. Another process that is its parent and sleeps
  -- in `wait` is runnable.
  pub exit_lem :
      (k' : Kernel M) × (exit sv k cur status ≡ some k')
      × Inv k'
      × ((k'.procs cur).state ≡ zombie)
      × ((k'.procs cur).xstate ≡ status)
      × ((t : ℕ)
          → t < nproc
          → (k'.procs t).parent ≡ (if is_child k cur t then heir_of k t else (k.procs t).parent))
      × ((q : ℕ)
          → q < nproc
          → q ≢ cur
          → is_child k cur cur ≡ false
          → (k.procs cur).parent ≡ some q
          → Awaits k q
          → (k'.procs q).state ≡ runnable)
  unfolding exit
  exit_lem =
      let (k1, e1, r) = release_all sv k cur has_cwd in
      let v1 = Inv-Quiet v r.quiet in
      let (k2, e2, v2, a, moved) = reparent_lem k1 cur cur v1 in
      let l2 : IsLive (k2.procs cur) = ground (arith, l, r.self, a.self) in
      (
        bury k2 cur status,
        ground (arith, not_init, e1, e2),
        Inv-Quiet v2 (bury-Quiet k2 cur status l2),
        bury-Exited k2 cur status,
        bury_xstate k2 cur status,
        exit_parents k1 k2 r.quiet r.parents v1.vacant moved,
        λ q hq ne own e w.
            bury_wakes k2 cur status q hq ne (ground (arith, moved cur h, r.parents cur, own, e)) (
              Awaits-stirred k1 k2 q (a.stirred q) (a.chans q)
                (Awaits-stirred k k1 q (r.others q ne) (r.chans q ne) w)),
      )
