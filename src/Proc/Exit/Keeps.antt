-- ===== src/Proc/Exit/Keeps.antt =====
-- `exit` and `wait`.
use jklnkhbv.Base.{
  ℕ, zero, suc, ◌+◌, ◌≡◌, ◌≢◌, ◌⊎◌, refl, ap, ◌∙◌, true, Option, none, some, List, [], ◌∷◌, update,
  arith, Option-cases, inl, inr, is_some, is_some→some,
}
use jklnkhbv.Proc.{Kernel, nofile, Chan, sleeping, runnable}
use jklnkhbv.Proc.Services.{Services}
use jklnkhbv.Proc.Inv.Quiet.{Quiet, Quiet-refl, Quiet-trans, set_proc-Quiet, rest-Quiet}
use jklnkhbv.Proc.Alloc.{set_proc}
use jklnkhbv.Proc.Sched.{wakeup, wakeup_all}
use jklnkhbv.Proc.Sched.Keeps.{wakeup-Quiet}
use jklnkhbv.Proc.Exit.{close_files, drop_cwd, give_back}

module _ {M : Type 0} where
  -- What the caller's own calls do to the table: other processes wake up at most, and parents stay.
  pub record Stirs (cur : ℕ) (k k' : Kernel M) : Type 0 where
    pub quiet : Quiet k k'
    pub self : ((k'.procs cur).state ≡ (k.procs cur).state)
    pub others :
        (t : ℕ)
        → t ≢ cur
        → ((k'.procs t).state ≡ (k.procs t).state)
          ⊎ (((k.procs t).state ≡ sleeping) × ((k'.procs t).state ≡ runnable))
    pub chans : (t : ℕ) → t ≢ cur → (k'.procs t).chan ≡ (k.procs t).chan
    pub parents : (t : ℕ) → (k'.procs t).parent ≡ (k.procs t).parent
    pub cwd : (k'.procs cur).cwd ≡ (k.procs cur).cwd

  Stirs-refl : (cur : ℕ) (k : Kernel M) → Stirs cur k k
  Stirs-refl cur k = record {
    quiet = Quiet-refl k;
    self = refl;
    others = λ t ne. inl refl;
    chans = λ t ne. refl;
    parents = λ t. refl;
    cwd = refl;
  }

  Stirs-trans : {cur : ℕ} {k k1 k2 : Kernel M} → Stirs cur k k1 → Stirs cur k1 k2 → Stirs cur k k2
  Stirs-trans a b = record {
    quiet = Quiet-trans a.quiet b.quiet;
    self = b.self ∙ a.self;
    others = λ t ne. ground (arith, a.others t ne, b.others t ne);
    chans = λ t ne. b.chans t ne ∙ a.chans t ne;
    parents = λ t. b.parents t ∙ a.parents t;
    cwd = b.cwd ∙ a.cwd;
  }

  rest-Stirs : (cur : ℕ) (k : Kernel M) (m : M) → Stirs cur k (record k { rest = m })
  rest-Stirs cur k m = record {
    quiet = rest-Quiet k m;
    self = refl;
    others = λ t ne. inl refl;
    chans = λ t ne. refl;
    parents = λ t. refl;
    cwd = refl;
  }

  wakeup-Stirs : (cur : ℕ) (k : Kernel M) (c : Option Chan) → Stirs cur k (wakeup k cur c)
  unfolding wakeup
  wakeup-Stirs cur k c = record {
    quiet = wakeup-Quiet k cur c;
    self = ground arith;
    others = λ t ne. ground arith;
    chans = λ t ne. ground arith;
    parents = λ t. ground arith;
    cwd = ground arith;
  }

  wakeup_all-Stirs : (cur : ℕ) (k : Kernel M) (cs : List Chan) → Stirs cur k (wakeup_all k cur cs)
  unfolding wakeup_all
  wakeup_all-Stirs cur k [] = Stirs-refl cur k
  wakeup_all-Stirs cur k (c ∷ cs) =
      Stirs-trans (wakeup-Stirs cur k (some c)) (wakeup_all-Stirs cur (wakeup k cur (some c)) cs)

  -- The caller drops an open file of its own.
  drop_file-Stirs :
      (cur fd : ℕ) (k : Kernel M)
      → Stirs cur k
          (set_proc k cur (record (k.procs cur) { ofile = update (k.procs cur).ofile fd none }))
  drop_file-Stirs cur fd k = record {
    quiet =
        set_proc-Quiet k cur _ (λ l. record { live = l; ns = refl; pids = refl; pid = refl })
          (λ u. (u, refl));
    self = ground arith;
    others = λ t ne. ground arith;
    chans = λ t ne. ground arith;
    parents = λ t. ground arith;
    cwd = ground arith;
  }

  close_files-Stirs :
      (sv : Services M) (n fd : ℕ) (k : Kernel M) (cur : ℕ)
      → Stirs cur k (close_files sv n fd k cur)
  unfolding close_files
  close_files-Stirs sv zero fd k cur = Stirs-refl cur k
  close_files-Stirs sv (suc n) fd k cur = elim (Option-cases ((k.procs cur).ofile fd)) [
    | inl e ↦ rw (e, close_files) (close_files-Stirs sv n (fd + 1) k cur)
    | inr (f, e) ↦
        let r = sv.fileclose f k.rest in
        let k1 = wakeup_all (record k { rest = r.0 }) cur r.1 in
        rw (e, close_files)
          (Stirs-trans
            (Stirs-trans
              (Stirs-trans (rest-Stirs cur k r.0)
                (wakeup_all-Stirs cur (record k { rest = r.0 }) r.1))
              (drop_file-Stirs cur fd k1))
            (close_files-Stirs sv n (fd + 1) _ cur))
  ]

  -- What `exit` does before it hands the children over: the same, but that the working directory
  -- is given back.
  pub record Released (cur : ℕ) (k k' : Kernel M) : Type 0 where
    pub quiet : Quiet k k'
    pub self : (k'.procs cur).state ≡ (k.procs cur).state
    pub others :
        (t : ℕ)
        → t ≢ cur
        → ((k'.procs t).state ≡ (k.procs t).state)
          ⊎ (((k.procs t).state ≡ sleeping) × ((k'.procs t).state ≡ runnable))
    pub chans : (t : ℕ) → t ≢ cur → (k'.procs t).chan ≡ (k.procs t).chan
    pub parents : (t : ℕ) → (k'.procs t).parent ≡ (k.procs t).parent
    pub no_cwd : (k'.procs cur).cwd ≡ none

  Released-Stirs :
      {cur : ℕ} {k k1 : Kernel M}
      → Stirs cur k k1
      → Released cur k (set_proc k1 cur (record (k1.procs cur) { cwd = none }))
  Released-Stirs {cur} {k} {k1} a = record {
    quiet = Quiet-trans a.quiet (
        set_proc-Quiet k1 cur _ (λ l. record { live = l; ns = refl; pids = refl; pid = refl })
          (λ u. (u, refl)));
    self = ground (arith, a.self);
    others = λ t ne. ground (arith, a.others t ne);
    chans = λ t ne. ground (arith, a.chans t ne);
    parents = λ t. ground (arith, a.parents t, a.parents cur);
    no_cwd = ground arith;
  }

  give_back-Released :
      (sv : Services M) (cur : ℕ) (k k1 : Kernel M) (cwd : ℕ)
      → Stirs cur k k1
      → Released cur k (give_back sv k1 cur cwd)
  unfolding give_back
  give_back-Released sv cur k k1 cwd a =
      let r = sv.iput cwd (sv.begin_op k1.rest) in
      let r' = sv.end_op r.0 in
      let woken =
        Stirs-trans (Stirs-trans a (rest-Stirs cur k1 r'.0))
          (wakeup_all-Stirs cur (record k1 { rest = r'.0 }) r.1) in
      Released-Stirs (
        Stirs-trans woken
          (wakeup_all-Stirs cur (wakeup_all (record k1 { rest = r'.0 }) cur r.1) r'.1))

  drop_cwd-some :
      (sv : Services M) (k : Kernel M) (cur cwd : ℕ)
      → (k.procs cur).cwd ≡ some cwd
      → drop_cwd sv k cur ≡ some (give_back sv k cur cwd)
  unfolding drop_cwd
  drop_cwd-some sv k cur cwd e = rw e

  -- Closing the files and giving the directory back comes to its end.
  pub release_all :
      (sv : Services M) (k : Kernel M) (cur : ℕ)
      → is_some (k.procs cur).cwd ≡ true
      → (k' : Kernel M) × (drop_cwd sv (close_files sv nofile 0 k cur) cur ≡ some k')
        × Released cur k k'
  release_all sv k cur c =
      let k1 = close_files sv nofile 0 k cur in
      let closed = close_files-Stirs sv nofile 0 k cur in
      let (cwd, e) = is_some→some (k1.procs cur).cwd (ap is_some closed.cwd ∙ c) in
      (
        give_back sv k1 cur cwd,
        drop_cwd-some sv k1 cur cwd e,
        give_back-Released sv cur k k1 cwd closed,
      )
