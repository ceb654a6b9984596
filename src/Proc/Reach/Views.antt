-- ===== src/Proc/Reach/Views.antt =====
-- What a process learns of the others from `ps_list`, `getpid` and `wait` of kernel/proc.c.
use jklnkhbv.Base.{
  ℕ, ◌≤◌, ◌<◌, ◌≡◌, ◌≢◌, refl, sym, ap, ◌∙◌, true, Option, none, some, arith, subst, Bool-cases,
  inl, inr, ◌==◌,
}
use jklnkhbv.Proc.{Kernel, nproc, is_unused, is_zombie}
use jklnkhbv.Proc.Services.{Services}
use jklnkhbv.Proc.Inv.{IsLive, Inv, home, depth_of, space_of}
use jklnkhbv.Proc.Fork.{err, val}
use jklnkhbv.Proc.Fork.Keeps.{Runs}
use jklnkhbv.Proc.Boot.{First, booted, userinit}
use jklnkhbv.Proc.Boot.Started.{HasMemory}
use jklnkhbv.Proc.Exit.{Wait, returns, sleeps, wait}
use jklnkhbv.Proc.Exit.Waited.{wait_lem, WaitOutcome}
use jklnkhbv.Proc.PsList.{shown, getpid}
use jklnkhbv.Proc.PsList.Listing.{in_view, shown_lem}
use jklnkhbv.Proc.Reach.{Reach, booted-Inv}

module _ {M : Type 0} (k : Kernel M) (cur : ℕ) where
  -- The namespace of the caller is the one of a process in its view, at the caller's level.
  viewed_space :
      (s : ℕ)
      → in_view k cur s ≡ true
      → (depth_of k cur ≤ depth_of k s) × (space_of k s (depth_of k cur) ≡ home k cur)
  viewed_space s h = (ground (arith, h), ground (arith, h))

  passes :
      (s : ℕ) → Inv k → Runs k cur → s < nproc → shown k cur s ≡ some true → in_view k cur s ≡ true
  passes s v run h e =
      let is : some (in_view k cur s) ≡ some true = sym (shown_lem k cur v run s h) ∙ e in
      ground (arith, is)

  -- In every state that the steps reach after a `userinit` that found its pages, where the caller
  -- runs: of two processes that the test of `ps_list` lets pass, the pids in the caller's namespace
  -- differ, and so do the global pids.
  pub view_distinct :
      (sv : Services M) (fs : First M) (m : M) (k0 : Kernel M) (s t : ℕ)
      → HasMemory sv fs m
      → userinit sv fs (booted m) ≡ some k0
      → Reach sv k0 k
      → Runs k cur
      → s < nproc
      → t < nproc
      → s ≢ t
      → shown k cur s ≡ some true
      → shown k cur t ≡ some true
      → ((k.procs s).pids (depth_of k cur) ≢ (k.procs t).pids (depth_of k cur))
        × ((k.procs s).pid ≢ (k.procs t).pid)
  view_distinct sv fs m k0 s t memory start reached run hs ht ne ps pt =
      let v = booted-Inv sv fs m k0 k memory start reached in
      let ins = passes s v run hs ps in
      let int = passes t v run ht pt in
      let ls : IsLive (k.procs s) = ground (arith, ins) in
      let lt : IsLive (k.procs t) = ground (arith, int) in
      let (les, es) = viewed_space s ins in
      let (let_t, et) = viewed_space t int in
      (
        v.distinct s t (depth_of k cur) hs ht ne ls lt les let_t (es ∙ sym et),
        λ e.
            v.distinct s t 0 hs ht ne ls lt (omega arith) (omega arith)
              ((v.homes s hs ls).grounded ∙ sym (v.homes t ht lt).grounded)
              (sym (v.global s hs ls) ∙ e ∙ v.global t ht lt),
      )

  -- A child that lives below the root namespace and whose slot this pass has freed.
  abbrev ReportsGlobal : ℕ → Wait M → Type 0
  ReportsGlobal s (returns (val n) k') =
      is_unused (k'.procs s).state ≡ true → (p : ℕ) × (getpid k s ≡ some p) × (p < n)
  ReportsGlobal s (returns err k') = Unit
  ReportsGlobal s (sleeps k') = Unit

  abbrev PassGlobal : ℕ → Option (Wait M) → Type 0
  PassGlobal s none = Unit
  PassGlobal s (some w) = ReportsGlobal s w

  own_pid :
      (s : ℕ)
      → Inv k
      → s < nproc
      → IsLive (k.procs s)
      → getpid k s ≡ some ((k.procs s).pids (depth_of k s))
  unfolding getpid
  own_pid s v h l = rw (v.placed s h l) refl

  global_Outcome :
      (sv : Services M) (s : ℕ)
      → Inv k
      → s < nproc
      → is_zombie (k.procs s).state ≡ true
      → 0 < depth_of k s
      → (addr : ℕ) (w : Wait M) → WaitOutcome sv k cur addr w
      → ReportsGlobal s w
  global_Outcome sv s v hs z deep addr (returns (val n) k') (t, zt, e, _, _, others, _) = λ free.
      elim (Bool-cases (s == t)) [
        | inr ne ↦
            let kept : (k'.procs s).state ≡ (k.procs s).state =
              ap (λ p. p.state) (others s (ground (arith, ne))) in
            absurd (ground (arith, kept, z, free))
        | inl same_slot ↦
            let at : s ≡ t = ground (arith, same_slot) in
            let l : IsLive (k.procs s) = ground (arith, z) in
            (
              (k.procs s).pids (depth_of k s),
              own_pid s v hs l,
              subst (λ m. (k.procs s).pids (depth_of k s) < m)
                  (ap (λ u. (k.procs u).pid) at ∙ sym e)
                  (v.smaller s (depth_of k s) hs l (omega arith) deep),
            )
      ]
  global_Outcome sv s v hs z deep addr (returns err k') o = tt
  global_Outcome sv s v hs z deep addr (sleeps k') o = tt

  -- In a state that satisfies `Inv`, where the caller runs, `wait` returns a number and the slot of
  -- a zombie that lives below the root namespace is free afterwards, the number is greater than the
  -- pid that this process read as its own.
  pub wait_global :
      (sv : Services M) (addr n s : ℕ) (k' : Kernel M)
      → Inv k
      → Runs k cur
      → wait sv k cur addr ≡ some (returns (val n) k')
      → s < nproc
      → is_zombie (k.procs s).state ≡ true
      → is_unused (k'.procs s).state ≡ true
      → 0 < depth_of k s
      → (p : ℕ) × (getpid k s ≡ some p) × (p < n)
  wait_global sv addr n s k' v run e hs z free deep =
      let (w, e', o) = wait_lem sv k cur addr v run in
      subst (PassGlobal s) (sym e' ∙ e) (global_Outcome sv s v hs z deep addr w o) free
