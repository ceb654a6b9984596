-- ===== src/Log/Commit.antt =====
-- `commit` of kernel/log.c, write by write.
use jklnkhbv.Base.{
  ℕ, zero, suc, ◌+◌, ◌≤◌, ◌<◌, ◌≡◌, ◌⊎◌, refl, sym, ap, ◌∙◌, false, [], ◌∷◌, update, update_self,
  update_ne, All, All-map, if◌then◌else◌, arith, inl, inr, subst, fun_ext,
}
use jklnkhbv.Log.{
  Block, Disk, Log, log_size, bwrite, copy_block, header, install_trans, write_head, write_one,
  write_loop, write_log, commit, initlog,
}
use jklnkhbv.Log.Install.{
  in_log, logged, Transaction, Committed, Installed, install_trans-Installed,
}
use jklnkhbv.Log.Recovery.{
  Idle, after, write_head_disk, write_head_trail, erase-Idle, recovered-Idle, recovered_trail,
  unchanged-Idle, unchanged_trail,
}

-- The log in memory before `commit`: it has room for its blocks, which are not blocks of the log,
-- and the log on disk is empty. The trail starts here.
pub record Ready (s : Log) : Type 0 where
  pub some_block : 0 < s.n
  pub fits : s.n ≤ log_size
  pub outside : (i : ℕ) → i < s.n → in_log s.start (s.block i) ≡ false
  pub empty : s.bufs.disk s.start 0 ≡ 0
  pub fresh : s.bufs.trail ≡ []

module _ (s0 : Log) (ready : Ready s0) where
  abbrev pub transaction : Transaction
  transaction = record {
    start = s0.start;
    n = s0.n;
    block = s0.block;
    wanted = s0.bufs.cached;
    fits = ready.fits;
    outside = ready.outside;
  }

  abbrev home : Disk
  home = s0.bufs.disk

  -- After `k` rounds of `write_log`.
  record Written (k : ℕ) (s : Log) : Type 0 where
    start_kept : s.start ≡ s0.start
    n_kept : s.n ≡ s0.n
    block_kept : s.block ≡ s0.block
    homes : (b : ℕ) → in_log s0.start b ≡ false → s.bufs.cached b ≡ s0.bufs.cached b
    copies_cached : (i : ℕ) → i < k → s.bufs.cached (s0.start + i + 1) ≡ s0.bufs.cached (s0.block i)
    copies : (i : ℕ) → i < k → s.bufs.disk (s0.start + i + 1) ≡ s0.bufs.cached (s0.block i)
    idle : Idle s0.start home s.bufs.disk
    trail : All (Idle s0.start home) s.bufs.trail

  module _ (k : ℕ) (s : Log) (v : Written k s) (h : k < s0.n) where
    abbrev next : Log
    next = write_one k s

    from_home : s.bufs.cached (s.block k) ≡ s0.bufs.cached (s0.block k)
    from_home =
        ap (λ (f : ℕ → ℕ). s.bufs.cached (f k)) v.block_kept
        ∙ v.homes (s0.block k) (ready.outside k h)

    next_disk : next.bufs.disk ≡ update s.bufs.disk (s0.start + k + 1) (s0.bufs.cached (s0.block k))
    unfolding write_one bwrite copy_block
    next_disk = let e = from_home in fun_ext λ b. ground (arith, e, v.start_kept)

    next_cached :
        next.bufs.cached ≡ update s.bufs.cached (s0.start + k + 1) (s0.bufs.cached (s0.block k))
    unfolding write_one bwrite copy_block
    next_cached = let e = from_home in fun_ext λ b. ground (arith, e, v.start_kept)

    next_trail : next.bufs.trail ≡ next.bufs.disk ∷ s.bufs.trail
    unfolding write_one bwrite copy_block
    next_trail = refl

    next-Idle : Idle s0.start home next.bufs.disk
    next-Idle = subst (Idle s0.start home) (sym next_disk) (record {
      count =
          ap (λ (b : Block). b 0)
            (update_ne s.bufs.disk (s0.start + k + 1) s0.start (s0.bufs.cached (s0.block k))
              (omega arith))
          ∙ v.idle.count;
      others = λ b out. ground (arith, v.idle.others b out, ready.fits);
    })

    next-Written : Written (suc k) next
    unfolding write_one
    next-Written = record {
      start_kept = v.start_kept;
      n_kept = v.n_kept;
      block_kept = v.block_kept;
      homes =
          λ b out. ap (λ (f : Disk). f b) next_cached ∙ ground (arith, ready.fits, v.homes b out);
      copies_cached = λ i lt.
          ap (λ (f : Disk). f (s0.start + i + 1)) next_cached ∙ ground (arith, v.copies_cached i);
      copies =
          λ i lt. ap (λ (f : Disk). f (s0.start + i + 1)) next_disk ∙ ground (arith, v.copies i);
      idle = next-Idle;
      trail = subst (All (Idle s0.start home)) (sym next_trail) (next-Idle, v.trail);
    }

  write_loop-Written :
      (rounds k : ℕ) (s : Log)
      → k + rounds ≡ s0.n
      → Written k s
      → Written s0.n (write_loop rounds k s)
  unfolding write_loop
  write_loop-Written zero k s e v = subst (λ j. Written j s) (omega arith) v
  write_loop-Written (suc rounds) k s e v =
      write_loop-Written rounds (suc k) (write_one k s) (omega arith)
        (next-Written k s v (omega arith))

  write_log-Written : Written s0.n (write_log s0)
  unfolding write_log
  write_log-Written = write_loop-Written s0.n 0 s0 (omega arith) (record {
    start_kept = refl;
    n_kept = refl;
    block_kept = refl;
    homes = λ b out. refl;
    copies_cached = λ i lt. absurd (omega arith);
    copies = λ i lt. absurd (omega arith);
    idle = record { count = ready.empty; others = λ b out. refl };
    trail = subst (All (Idle s0.start home)) (sym ready.fresh) tt;
  })

  -- What a crash may leave on the disk.
  abbrev Crashed : Disk → Type 0
  Crashed d =
      Idle s0.start home d
      ⊎ (Committed transaction home d ⊎ Idle s0.start (after transaction home) d)

  module _ (s : Log) (v : Written s0.n s) where
    headed :
        (write_head s).bufs.disk ≡ update s.bufs.disk s.start (header s (s.bufs.cached s.start))
    headed = write_head_disk s

    head-Committed : Committed transaction home (write_head s).bufs.disk
    head-Committed = subst (Committed transaction home) (sym headed) (record {
      count =
          ap (λ (b : Block). b 0)
            (update_self s.bufs.disk s.start s0.start (header s (s.bufs.cached s.start))
              v.start_kept)
          ∙ v.n_kept;
      blocks = λ i lt.
          ap (λ (b : Block). b (suc i))
            (update_self s.bufs.disk s.start s0.start (header s (s.bufs.cached s.start))
              v.start_kept)
          ∙ ground (arith, v.n_kept, ap (λ (f : ℕ → ℕ). f i) v.block_kept);
      copies = λ i lt. ground (arith, v.start_kept, v.copies i lt);
      others = λ b out l. ground (arith, v.start_kept, v.idle.others b out);
    })

    headed-Installed : Installed transaction home Crashed (λ d c. inr (inl c)) 0 (write_head s)
    unfolding logged write_head bwrite
    headed-Installed = record {
      start_kept = v.start_kept;
      n_kept = v.n_kept;
      block_kept = λ i lt. ap (λ (f : ℕ → ℕ). f i) v.block_kept;
      copies = λ i lt. ground (arith, v.start_kept, v.copies_cached i lt);
      committed = head-Committed;
      installed = λ b out l. cc;
      trail = (inr (inl head-Committed), All-map (λ d i. inl i) s.bufs.trail v.trail);
    }

  abbrev logged_and_headed : Log
  logged_and_headed = write_head (write_log s0)

  done-Installed :
      Installed transaction home Crashed
        (λ d c. inr (inl c))
        s0.n
        (install_trans false logged_and_headed)
  done-Installed =
      install_trans-Installed transaction home Crashed (λ d c. inr (inl c)) false logged_and_headed
        (headed-Installed (write_log s0) write_log-Written)

  commit_some : commit s0 ≡ write_head (record (install_trans false logged_and_headed) { n = 0 })
  unfolding commit
  commit_some = let h = ready.some_block in ground arith

  commit-Idle : Idle s0.start (after transaction home) (commit s0).bufs.disk
  commit-Idle =
      subst (λ (r : Log). Idle s0.start (after transaction home) r.bufs.disk) (sym commit_some)
        (erase-Idle transaction home Crashed (λ d c. inr (inl c))
          (install_trans false logged_and_headed) done-Installed)

  commit_trail : All Crashed (commit s0).bufs.trail
  commit_trail =
      let last = install_trans false logged_and_headed in
      subst (λ (r : Log). All Crashed r.bufs.trail) (sym commit_some)
        (subst (All Crashed) (sym (write_head_trail (record last { n = 0 }))) (
          inr (inr (erase-Idle transaction home Crashed (λ d c. inr (inl c)) last done-Installed)),
          done-Installed.trail,
        ))

  commit_n : (commit s0).n ≡ 0
  unfolding write_head
  commit_n = ap (λ (r : Log). r.n) commit_some

  -- The disk after a start of the machine from `d`.
  abbrev pub recovered : ℕ → Disk → Disk
  recovered nlog d = (initlog s0.start nlog d).bufs.disk

  -- The same blocks outside the log.
  abbrev pub SameBlocks : Disk → Disk → Type 0
  SameBlocks d e = (b : ℕ) → in_log s0.start b ≡ false → d b ≡ e b

  -- Each block of the transaction as its buffer has it, and the other ones as the disk does.
  abbrev pub committed_disk : Disk
  committed_disk b = if logged s0.block s0.n b then s0.bufs.cached b else s0.bufs.disk b

  -- A start from `d` leaves all of the transaction or nothing of it, and so does a start from each
  -- disk that a crash during that start may leave.
  abbrev pub Survives : ℕ → Disk → Type 0
  Survives nlog d =
      (SameBlocks (recovered nlog d) s0.bufs.disk ⊎ SameBlocks (recovered nlog d) committed_disk)
      × All (λ e. SameBlocks (recovered nlog e) (recovered nlog d))
          (initlog s0.start nlog d).bufs.trail

  Idle-survives :
      (nlog : ℕ) (h d : Disk)
      → Idle s0.start h d
      → All
          (λ e. SameBlocks (recovered nlog e) (recovered nlog d))
          (initlog s0.start nlog d).bufs.trail
  Idle-survives nlog h d i =
      All-map
        (λ e j b out.
          (unchanged-Idle s0.start nlog h e j).others b out
          ∙ sym ((unchanged-Idle s0.start nlog h d i).others b out))
        _ (unchanged_trail s0.start nlog h d i)

  recovered_same :
      (nlog : ℕ) (e : Disk)
      → Committed transaction home e ⊎ Idle s0.start (after transaction home) e
      → SameBlocks (recovered nlog e) committed_disk
  recovered_same nlog e (inl c) = (recovered-Idle transaction home nlog e c).others
  recovered_same nlog e (inr i) = (unchanged-Idle s0.start nlog (after transaction home) e i).others

  Crashed-Survives : (nlog : ℕ) (d : Disk) → Crashed d → Survives nlog d
  Crashed-Survives nlog d (inl i) =
      (inl (unchanged-Idle s0.start nlog home d i).others, Idle-survives nlog home d i)
  Crashed-Survives nlog d (inr (inr i)) = (
    inr (unchanged-Idle s0.start nlog (after transaction home) d i).others,
    Idle-survives nlog (after transaction home) d i,
  )
  Crashed-Survives nlog d (inr (inl c)) =
      let now = recovered-Idle transaction home nlog d c in
      (
        inr now.others,
        All-map (λ e p b out. recovered_same nlog e p b out ∙ sym (now.others b out)) _
            (recovered_trail transaction home nlog d c),
      )

  -- From a log in memory with at least one block and room for all, none of them a block of the log,
  -- and an empty log on disk: `commit` puts each block of the transaction from its buffer on the
  -- disk, changes no other block outside the log, and leaves the log empty in memory and on disk.
  -- If the machine stops after any write to the disk, `initlog` at the next start makes the disk
  -- outside the log the one before or the one after the commit; and if the machine stops after any
  -- write of `initlog`, the start after that one makes the same disk.
  pub commit_lem :
      (nlog : ℕ)
      → SameBlocks (commit s0).bufs.disk committed_disk
        × ((commit s0).bufs.disk s0.start 0 ≡ 0)
        × ((commit s0).n ≡ 0)
        × All (Survives nlog) (commit s0).bufs.trail
  commit_lem nlog = (
    commit-Idle.others,
    commit-Idle.count,
    commit_n,
    All-map (Crashed-Survives nlog) _ commit_trail,
  )
