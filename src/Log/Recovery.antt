-- ===== src/Log/Recovery.antt =====
-- `recover_from_log` of kernel/log.c, from each disk that a crash may leave.
use jklnkhbv.Base.{
  ℕ, ◌≡◌, refl, sym, ap, ◌∙◌, true, false, [], ◌∷◌, update, update_self, All, All-map,
  if◌then◌else◌, arith, Bool-cases, inl, inr, ◌⊎◌, subst, fun_ext,
}
use jklnkhbv.Log.{
  Block, Disk, Log, bwrite, header, install_trans, install_loop, read_head, write_head,
  recover_from_log, initlog,
}
use jklnkhbv.Log.Install.{
  in_log, logged, Transaction, Committed, Installed, install_trans-Installed,
}

-- The log is empty, and the blocks outside it are those of `home`.
pub record Idle (start : ℕ) (home d : Disk) : Type 0 where
  pub count : d start 0 ≡ 0
  pub others : (b : ℕ) → in_log start b ≡ false → d b ≡ home b

-- The blocks outside the log when the transaction has taken place.
abbrev pub after : Transaction → Disk → Disk
after t home b = if logged t.block t.n b then t.wanted b else home b

pub write_head_disk :
    (s : Log)
    → (write_head s).bufs.disk ≡ update s.bufs.disk s.start (header s (s.bufs.cached s.start))
unfolding write_head bwrite
write_head_disk s = fun_ext λ b. ground arith

pub write_head_trail :
    (s : Log) → (write_head s).bufs.trail ≡ (write_head s).bufs.disk ∷ s.bufs.trail
unfolding write_head bwrite
write_head_trail s = refl

-- Erasing the header of a log that has been installed.
pub erase-Idle :
    (t : Transaction) (home : Disk) (Q : Disk → Type 0)
    (weak : (d : Disk) → Committed t home d → Q d) (s : Log)
    → Installed t home Q weak t.n s
    → Idle t.start (after t home) (write_head (record s { n = 0 })).bufs.disk
erase-Idle t home Q weak s v =
    subst (Idle t.start (after t home)) (sym (write_head_disk (record s { n = 0 }))) (record {
      count =
          ap (λ (b : Block). b 0)
            (update_self s.bufs.disk s.start t.start
              (header (record s { n = 0 }) (s.bufs.cached s.start)) v.start_kept);
      others = λ b out. elim (Bool-cases (logged t.block t.n b)) [
        | inl l ↦ ground (arith, v.start_kept, v.installed b out l)
        | inr l ↦ ground (arith, v.start_kept, v.committed.others b out l)
      ];
    })

-- A machine that starts with the disk `d`.
abbrev pub started : ℕ → ℕ → Disk → Log
started logstart nlog d = record {
  start = logstart;
  size = nlog;
  outstanding = 0;
  committing = false;
  n = 0;
  block = λ i. 0;
  bufs = record { disk = d; cached = d; pins = λ b. 0; trail = [] };
}

module _ (t : Transaction) (home : Disk) (nlog : ℕ) (d : Disk) (c : Committed t home d) where
  abbrev read : Log
  read = read_head (started t.start nlog d)

  read-Installed : Installed t home (Committed t home) (λ e c. c) 0 read
  unfolding read_head logged
  read-Installed = record {
    start_kept = refl;
    n_kept = c.count;
    block_kept = λ i lt. ground (arith, c.count, c.blocks i lt);
    copies = c.copies;
    committed = c;
    installed = λ b out l. cc;
    trail = tt;
  }

  pub recovered-Idle : Idle t.start (after t home) (initlog t.start nlog d).bufs.disk
  unfolding initlog recover_from_log
  recovered-Idle =
      erase-Idle t home (Committed t home) (λ e c. c) _
        (install_trans-Installed t home (Committed t home) (λ e c. c) true read read-Installed)

  pub recovered_trail :
      All
        (λ e. Committed t home e ⊎ Idle t.start (after t home) e)
        (initlog t.start nlog d).bufs.trail
  unfolding initlog recover_from_log
  recovered_trail =
      let done =
        install_trans-Installed t home (Committed t home) (λ e c. c) true read read-Installed in
      subst (All (λ e. Committed t home e ⊎ Idle t.start (after t home) e))
        (sym (write_head_trail (record (install_trans true read) { n = 0 })))
        (
          inr (erase-Idle t home (Committed t home) (λ e c. c) _ done),
          All-map (λ e p. inl p) _ done.trail,
        )

module _ (start nlog : ℕ) (home d : Disk) (i : Idle start home d) where
  abbrev read_empty : Log
  read_empty = read_head (started start nlog d)

  empty_installed : install_trans true read_empty ≡ read_empty
  unfolding install_trans install_loop read_head
  empty_installed = ap (λ r. install_loop r 0 true read_empty) i.count

  empty_disk :
      (initlog start nlog d).bufs.disk ≡ (write_head (record read_empty { n = 0 })).bufs.disk
  unfolding initlog recover_from_log
  empty_disk = ap (λ (r : Log). (write_head (record r { n = 0 })).bufs.disk) empty_installed

  pub unchanged-Idle : Idle start home (initlog start nlog d).bufs.disk
  unfolding read_head
  unchanged-Idle =
      let e = empty_disk ∙ write_head_disk (record read_empty { n = 0 }) in
      subst (Idle start home) (sym e) (record {
        count =
            ap (λ (b : Block). b 0)
              (update_self d start start (header (record read_empty { n = 0 }) (d start)) refl);
        others = λ b out. ground (arith, i.others b out);
      })

  pub unchanged_trail : All (Idle start home) (initlog start nlog d).bufs.trail
  unfolding initlog recover_from_log read_head
  unchanged_trail =
      let e : (initlog start nlog d).bufs.trail ≡ (initlog start nlog d).bufs.disk ∷ [] =
        ap (λ (r : Log). (write_head (record r { n = 0 })).bufs.trail) empty_installed
        ∙ write_head_trail (record read_empty { n = 0 })
        ∙ ap (λ x. x ∷ []) (sym empty_disk) in
      subst (All (Idle start home)) (sym e) (unchanged-Idle, tt)
