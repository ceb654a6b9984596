-- ===== src/Proc/Exit/Waited.antt =====
-- The theorems about `wait`.
use jklnkhbv.Base.{
  ℕ, ◌<◌, ◌≡◌, ◌≢◌, ◌⊎◌, refl, Bool, true, false, some, ◌==◌, arith, Option-cases, Bool-cases, inl,
  inr, is_some→some, find_from, find_from-some, find_from-none, ◌&&◌,
}
use jklnkhbv.Proc.{Kernel, nproc, is_unused, is_zombie, sleeping}
use jklnkhbv.Proc.Services.{Services}
use jklnkhbv.Proc.Inv.{Inv}
use jklnkhbv.Proc.Inv.Quiet.{Inv-Quiet, rest-Quiet}
use jklnkhbv.Proc.Alloc.{freeproc, cleared}
use jklnkhbv.Proc.Alloc.Keeps.{freeproc-Inv}
use jklnkhbv.Proc.Sched.{sleep, proc_chan, killed}
use jklnkhbv.Proc.Sched.Keeps.{sleep-Quiet}
use jklnkhbv.Proc.Fork.{Code, err, val}
use jklnkhbv.Proc.Fork.Keeps.{Runs}
use jklnkhbv.Proc.Exit.{is_child, Wait, returns, sleeps, reap, no_zombie, wait, int_bytes}

module _ {M : Type 0} where
  abbrev pub IsZombieChild : Kernel M → ℕ → ℕ → Type 0
  IsZombieChild k cur s =
      (s < nproc) × (is_child k cur s ≡ true) × (is_zombie (k.procs s).state ≡ true)

  abbrev pub HasChild : Kernel M → ℕ → Type 0
  HasChild k cur = (s : ℕ) × (s < nproc) × (is_child k cur s ≡ true)

  abbrev pub NoZombieChild : Kernel M → ℕ → Type 0
  NoZombieChild k cur =
      (s : ℕ) → s < nproc → is_child k cur s ≡ true → is_zombie (k.procs s).state ≡ false

  abbrev pub NoChild : Kernel M → ℕ → Type 0
  NoChild k cur = (s : ℕ) → s < nproc → is_child k cur s ≡ false

  -- The copy of the status of the child in slot `s` to `addr` has this result.
  abbrev pub StatusCopy : Services M → Kernel M → ℕ → ℕ → ℕ → Bool → Type 0
  StatusCopy sv k cur addr s b =
      (table : ℕ) × ((k.procs cur).pagetable ≡ some table)
      × ((sv.copyout table addr (int_bytes (k.procs s).xstate) k.rest).0 ≡ b)

  -- What one pass of `wait` may come to.
  abbrev pub WaitOutcome : Services M → Kernel M → ℕ → ℕ → Wait M → Type 0
  WaitOutcome sv k cur addr (returns (val n) k') =
      (s : ℕ) × IsZombieChild k cur s
      × (n ≡ (k.procs s).pid)
      × ((addr ≡ 0) ⊎ StatusCopy sv k cur addr s true)
      × (is_unused (k'.procs s).state ≡ true)
      × ((t : ℕ) → t ≢ s → k'.procs t ≡ k.procs t)
      × Inv k'
  WaitOutcome sv k cur addr (returns err k') =
      (k'.procs ≡ k.procs)
      × Inv k'
      × (NoChild k cur
          ⊎ ((NoZombieChild k cur × (killed k cur ≡ true))
              ⊎ ((addr ≢ 0)
                  × ((s : ℕ) × IsZombieChild k cur s × StatusCopy sv k cur addr s false))))
  WaitOutcome sv k cur addr (sleeps k') =
      HasChild k cur
      × NoZombieChild k cur
      × (killed k cur ≡ false)
      × ((k'.procs cur).state ≡ sleeping)
      × ((k'.procs cur).chan ≡ proc_chan (some cur))
      × ((t : ℕ) → t ≢ cur → k'.procs t ≡ k.procs t)
      × Inv k'

module _ {M : Type 0} (sv : Services M) (k : Kernel M) (cur addr : ℕ) (v : Inv k)
    (run : Runs k cur) where
  freed : (m : M) (s : ℕ) → is_unused ((freeproc sv (record k { rest = m }) s).procs s).state ≡ true
  unfolding freeproc cleared
  freed m s = ground arith

  freed_others :
      (m : M) (s t : ℕ) → t ≢ s → (freeproc sv (record k { rest = m }) s).procs t ≡ k.procs t
  unfolding freeproc
  freed_others m s t ne = ground arith

  freed_Outcome :
      (m : M) (s : ℕ)
      → IsZombieChild k cur s
      → (addr ≡ 0) ⊎ StatusCopy sv k cur addr s true
      → WaitOutcome sv k cur addr
          (returns (val (k.procs s).pid) (freeproc sv (record k { rest = m }) s))
  freed_Outcome m s z c = (
    s,
    z,
    refl,
    c,
    freed m s,
    freed_others m s,
    freeproc-Inv sv (record k { rest = m }) s (Inv-Quiet v (rest-Quiet k m)),
  )

  reap_Outcome :
      (s : ℕ)
      → IsZombieChild k cur s
      → (r : Code × Kernel M) × (reap sv k cur addr s ≡ some r)
        × WaitOutcome sv k cur addr (returns r.0 r.1)
  unfolding reap
  reap_Outcome s z = elim (Bool-cases (addr == 0)) [
    | inl here ↦ (
      (val (k.procs s).pid, freeproc sv k s),
      rw (here, reap),
      freed_Outcome k.rest s z (inl (ground (arith, here))),
    )
    | inr there ↦
        let (table, et) = is_some→some (k.procs cur).pagetable run.table in
        let c = sv.copyout table addr (int_bytes (k.procs s).xstate) k.rest in
        elim (Bool-cases c.0) [
          | inl ok ↦ (
            (val (k.procs s).pid, freeproc sv (record k { rest = c.1 }) s),
            ground (arith, there, et, ok),
            freed_Outcome c.1 s z (inr (table, et, ok)),
          )
          | inr bad ↦ (
            (err, record k { rest = c.1 }),
            ground (arith, there, et, bad),
            (
              refl,
              Inv-Quiet v (rest-Quiet k c.1),
              inr (inr ((λ e. ground arith), (s, z, (table, et, bad)))),
            ),
          )
        ]
  ]

  asleep_Outcome :
      HasChild k cur
      → NoZombieChild k cur
      → killed k cur ≡ false
      → WaitOutcome sv k cur addr (sleeps (sleep k cur (proc_chan (some cur))))
  unfolding sleep
  asleep_Outcome c z alive = (
    c,
    z,
    alive,
    ground arith,
    ground arith,
    (λ t ne. ground arith),
    Inv-Quiet v (sleep-Quiet k cur (proc_chan (some cur)) run.live),
  )

  no_zombie_Outcome : NoZombieChild k cur → WaitOutcome sv k cur addr (no_zombie k cur)
  unfolding no_zombie
  no_zombie_Outcome z = elim (Option-cases (find_from (λ s. is_child k cur s) nproc 0)) [
    | inl e ↦
        rw (e, no_zombie)
          (
            refl,
            v,
            inl (λ s h.
                find_from-none (λ s. is_child k cur s) nproc 0 s e (omega arith) (omega arith)),
          )
    | inr (s, e) ↦
        let hit = find_from-some (λ s. is_child k cur s) nproc 0 s e in
        elim (Bool-cases (killed k cur)) [
          | inl dead ↦ rw (e, no_zombie) (rw dead (refl, v, inr (inl (z, dead))))
          | inr alive ↦
              rw (e, no_zombie) (rw alive (asleep_Outcome (s, omega arith, hit.0) z alive))
        ]
  ]

  -- In a state that satisfies `Inv` and where the caller runs, one pass of `wait` comes to its end.
  -- If it returns a number, that is the pid of a child that is a zombie, whose status has been
  -- copied if an address is given, and whose slot is freed and no other. If it fails, there is no
  -- child, or the caller is killed and no child is a zombie, or the copy of the status of a zombie
  -- to the address has failed, and the processes are left alone. Otherwise there are children, none
  -- a zombie, and the caller sleeps on its own address.
  pub wait_lem : (w : Wait M) × (wait sv k cur addr ≡ some w) × WaitOutcome sv k cur addr w
  unfolding wait
  wait_lem =
      elim (Option-cases
        (find_from (λ s. is_child k cur s && is_zombie (k.procs s).state) nproc 0)) [
          | inr (s, e) ↦
              let hit =
                find_from-some (λ s. is_child k cur s && is_zombie (k.procs s).state) nproc 0 s e in
              let (r, er, o) =
                reap_Outcome s (omega arith, ground (arith, hit.0), ground (arith, hit.0)) in
              (returns r.0 r.1, rw (e, wait) (rw er refl), o)
          | inl e ↦ (
            no_zombie k cur,
            rw (e, wait),
            no_zombie_Outcome (λ s h c. ground (
              arith,
              find_from-none (λ s. is_child k cur s && is_zombie (k.procs s).state) nproc 0 s e,
            )),
          )
        ]
