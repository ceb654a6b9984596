-- ===== src/Proc/Fork/Keeps.antt =====
-- `fork` and `clone` keep the invariant.
use jklnkhbv.Base.{
  ℕ, ◌<◌, ◌≡◌, ◌≢◌, refl, true, Option, none, some, arith, is_some, is_some→some, Bool-cases, inl,
  inr,
}
use jklnkhbv.Proc.{Kernel, Trapframe, nproc, runnable}
use jklnkhbv.Proc.Services.{Services}
use jklnkhbv.Proc.Inv.{IsLive, home, Inv}
use jklnkhbv.Proc.Inv.Carry.{Inv-slots}
use jklnkhbv.Proc.Alloc.{freeproc}
use jklnkhbv.Proc.Alloc.Keeps.{SameSpace-refl, freeproc-Inv}
use jklnkhbv.Proc.Fork.{Code, err, val, finish_child, copy_process}

-- What the system call returns in the process with this trapframe.
abbrev pub return_value : Option Trapframe → Option ℕ
return_value none = none
return_value (some f) = some f.a0

module _ {M : Type 0} where
  -- The process in slot `cur` runs: it has what a process in user space has.
  pub record Runs (k : Kernel M) (cur : ℕ) : Type 0 where
    pub slot : cur < nproc
    pub live : IsLive (k.procs cur)
    pub table : is_some (k.procs cur).pagetable ≡ true
    pub frame : is_some (k.procs cur).trapframe ≡ true
    pub cwd : is_some (k.procs cur).cwd ≡ true

  -- The slot `np`, allocated in `k`, is a copy of the process in `cur` in `k'`.
  pub record Copied (k : Kernel M) (cur np n : ℕ) (k' : Kernel M) : Type 0 where
    pub ready : (k'.procs np).state ≡ runnable
    pub parent : (k'.procs np).parent ≡ some cur
    pub zero : return_value (k'.procs np).trapframe ≡ some 0
    pub sz : (k'.procs np).sz ≡ (k.procs cur).sz
    pub ns : (k'.procs np).ns ≡ (k.procs np).ns
    pub pids : (k'.procs np).pids ≡ (k.procs np).pids
    pub pid : (k'.procs np).pid ≡ (k.procs np).pid
    pub returned : n ≡ (k.procs np).pids (k.spaces (home k cur)).depth
    pub others : (t : ℕ) → t ≢ np → k'.procs t ≡ k.procs t
    pub spaces : k'.spaces ≡ k.spaces
    pub initns : k'.initnamespace ≡ k.initnamespace

  abbrev pub CopyOutcome : Kernel M → ℕ → ℕ → Code × Kernel M → Type 0
  CopyOutcome k cur np r = Inv r.1 × ((n : ℕ) → r.0 ≡ val n → Copied k cur np n r.1)

module _ {M : Type 0} (sv : Services M) (k : Kernel M) (cur np : ℕ) (v : Inv k) (run : Runs k cur)
    (born : IsLive (k.procs np)) (frame : is_some (k.procs np).trapframe ≡ true)
    (table : is_some (k.procs np).pagetable ≡ true) where
  finish_total : (m : M) → is_some (finish_child sv k cur np m) ≡ true
  unfolding finish_child
  finish_total m = ground (arith, v.placed cur run.slot run.live)

  module _ (m : M) (r : Code × Kernel M) (e : finish_child sv k cur np m ≡ some r) where
    finish-Inv : Inv r.1
    unfolding finish_child
    finish-Inv =
        Inv-slots v (λ a. (ground arith, ground arith, ground arith, ground arith)) (ground arith)
          (ground arith)
          (λ s h lt. record {
            live = ground arith;
            ns = ground arith;
            pids = ground arith;
            pid = ground arith;
          })
          (λ s h u. ground (arith, v.vacant s h))

    finish-Copied : (n : ℕ) → r.0 ≡ val n → Copied k cur np n r.1
    unfolding finish_child
    finish-Copied n er = record {
      ready = ground arith;
      parent = ground arith;
      zero = ground arith;
      sz = ground arith;
      ns = ground arith;
      pids = ground arith;
      pid = ground arith;
      returned = ground (arith, v.placed cur run.slot run.live);
      others = λ t ne. ground arith;
      spaces = ground arith;
      initns = ground arith;
    }

  pub copy_process-Outcome :
      (r : Code × Kernel M) × (copy_process sv k cur np ≡ some r) × CopyOutcome k cur np r
  unfolding copy_process
  copy_process-Outcome =
      let (from, ef) = is_some→some (k.procs cur).pagetable run.table in
      let (to, et) = is_some→some (k.procs np).pagetable table in
      let c = sv.uvmcopy from to (k.procs cur).sz k.rest in
      elim (Bool-cases c.0) [
        | inl ok ↦
            let (r, er) = is_some→some (finish_child sv k cur np c.1) (finish_total c.1) in
            (r, ground (arith, ef, et, ok, er), (finish-Inv c.1 r er, finish-Copied c.1 r er))
        | inr bad ↦ (
          (err, freeproc sv (record k { rest = c.1 }) np),
          ground (arith, ef, et, bad),
          (
            freeproc-Inv sv (record k { rest = c.1 }) np
                (Inv-slots v (λ a. SameSpace-refl (k.spaces a)) refl refl
                  (λ t h l. record { live = l; ns = refl; pids = refl; pid = refl }) v.vacant),
            λ n e. cc,
          ),
        )
      ]
