-- ===== src/Files/SysPipe.antt =====
-- sys_pipe of kernel/sysfile.c, on counted references.
use jklnkhbv.Base.{
  ℕ, ◌<◌, ◌≡◌, ◌⊎◌, inl, inr, refl, ap, ◌∙◌, sym, subst, true, false, Bool-cases, ◌==◌, Option,
  none, some, update, fun_ext, arith,
}
use jklnkhbv.Proc.{nofile}
use jklnkhbv.Proc.Services.{Services}
use jklnkhbv.Proc.Fork.{Code, err, val}
use jklnkhbv.Files.{Ftable, fdalloc, close_both, copy_fds, with_fd1, with_fd0, with_pipe, sys_pipe}
use jklnkhbv.Files.Counted.{Counted, take-Counted}
use jklnkhbv.Files.Table.{moved-Counted}
use jklnkhbv.Files.Calls.{HasRoom, IsFirst, fdalloc_lem}
use jklnkhbv.Files.Ends.{IsPipe, IsRefused, IsMade, PipeOutcome, pipealloc_lem}
use jklnkhbv.Files.Undo.{back_lem}

undo_one :
    (ofile : ℕ → Option ℕ) (fd : ℕ) (v : Option ℕ)
    → ofile fd ≡ none
    → update (update ofile fd v) fd none ≡ ofile
undo_one ofile fd v e = fun_ext (λ j. ground (arith, e))

undo_two :
    (ofile : ℕ → Option ℕ) (fd0 fd1 : ℕ) (f : ℕ) (v : Option ℕ)
    → ofile fd0 ≡ none
    → update ofile fd0 (some f) fd1 ≡ none
    → update (update (update (update ofile fd0 (some f)) fd1 v) fd0 none) fd1 none ≡ ofile
undo_two ofile fd0 fd1 f v e0 e1 = fun_ext (λ j. ground (arith, e0, e1))

module _ {M : Type 0} (sv : Services M) (table addr : ℕ) (ofile : ℕ → Option ℕ) (others : ℕ → ℕ)
    (t : Ftable M) (room : HasRoom others) (c : Counted ofile others t) where
  -- At most one descriptor is without a file.
  abbrev pub FewFds : Type 0
  FewFds = (a b : ℕ) → a < nofile → b < nofile → ofile a ≡ none → ofile b ≡ none → a ≡ b

  -- No pipe was made, or its page is free again, for want of descriptors or since a copy failed.
  abbrev pub IsUndone : Ftable M → Type 0
  IsUndone t' =
      IsRefused sv ofile others t room c t'
      ⊎ ((page : ℕ) × (m1 m : M) × (sv.kalloc t.rest ≡ (some page, m1))
          × (((m ≡ m1) × FewFds)
              ⊎ ((fd0 fd1 : ℕ) × (copy_fds sv table addr fd0 fd1 m1 ≡ (false, m))))
          × (t'.rest ≡ sv.kfree page m))

  -- The first two descriptors without a file hold the ends of a new pipe, and the user has their
  -- numbers.
  abbrev pub IsOpened : (ℕ → Option ℕ) × Ftable M → Type 0
  IsOpened (ofile', t') =
      (rf wf fd0 fd1 page : ℕ) × (m1 : M) × ((t.file rf).ref ≡ 0)
      × ((t.file wf).ref ≡ 0)
      × IsPipe rf wf page t'
      × (sv.kalloc t.rest ≡ (some page, m1))
      × IsFirst ofile fd0
      × IsFirst (update ofile fd0 (some rf)) fd1
      × (ofile' ≡ update (update ofile fd0 (some rf)) fd1 (some wf))
      × (copy_fds sv table addr fd0 fd1 m1 ≡ (true, t'.rest))

  abbrev pub PipeCall : Code × (ℕ → Option ℕ) × Ftable M → Type 0
  PipeCall r = ((r.0 ≡ err) × (r.1 ≡ ofile) × IsUndone r.2) ⊎ ((r.0 ≡ val 0) × IsOpened (r.1, r.2))

  abbrev Ended : Option (Code × (ℕ → Option ℕ) × Ftable M) → Type 0
  Ended o =
      (r : Code × (ℕ → Option ℕ) × Ftable M) × (o ≡ some r) × Counted r.1 others r.2 × PipeCall r

  module _ (rf wf : ℕ) (t1 : Ftable M) (made : IsMade sv ofile others t room c rf wf t1) where
    undone_lem :
        (m : M)
        → ((m ≡ t1.rest) × FewFds)
          ⊎ ((fd0 fd1 : ℕ) × (copy_fds sv table addr fd0 fd1 t1.rest ≡ (false, m)))
        → (ofile' : ℕ → Option ℕ) → ofile' ≡ ofile
        → Ended (close_both sv rf wf ofile' (record t1 { rest = m }))
    undone_lem m from ofile' e =
        let (t3, done, c3, (page, got, freed)) =
          back_lem sv ofile others t room c rf wf t1 made m in
        subst (λ o. Ended (close_both sv rf wf o (record t1 { rest = m }))) (sym e)
          ((err, ofile, t3), done, c3, inl (refl, refl, inr (page, t1.rest, m, got, from, freed)))

    found_lem :
        (fd0 fd1 : ℕ)
        → IsFirst ofile fd0
        → IsFirst (update ofile fd0 (some rf)) fd1
        → Ended (
            with_fd1 sv table addr rf wf fd0 t1
              (update ofile fd0 (some rf))
              (some (fd1, update (update ofile fd0 (some rf)) fd1 (some wf))))
    unfolding with_fd1
    found_lem fd0 fd1 first0 first1 =
        let (lt0, lt1, free0, free1, c1, (page, got, pipe)) = made in
        let of2 = update (update ofile fd0 (some rf)) fd1 (some wf) in
        let m = (copy_fds sv table addr fd0 fd1 t1.rest).1 in
        elim (Bool-cases (copy_fds sv table addr fd0 fd1 t1.rest).0) [
          | inl copied ↦ (
            (val 0, of2, record t1 { rest = m }),
            rw copied refl,
            take-Counted fd1 wf first1.0 lt1 first1.1
                (take-Counted fd0 rf first0.0 lt0 first0.1 (moved-Counted refl c1)),
            inr (
              refl,
              (
                rf,
                wf,
                fd0,
                fd1,
                page,
                t1.rest,
                free0,
                free1,
                record {
                  apart = pipe.apart;
                  rf_type = pipe.rf_type;
                  rf_readable = pipe.rf_readable;
                  rf_writable = pipe.rf_writable;
                  rf_pipe = pipe.rf_pipe;
                  wf_type = pipe.wf_type;
                  wf_readable = pipe.wf_readable;
                  wf_writable = pipe.wf_writable;
                  wf_pipe = pipe.wf_pipe;
                  fresh = pipe.fresh;
                },
                got,
                first0,
                first1,
                refl,
                ap (λ b. (b, m)) copied,
              ),
            ),
          )
          | inr failed ↦ rw failed (
              undone_lem m (inr (fd0, fd1, ap (λ b. (b, m)) failed))
                (update (update of2 fd0 none) fd1 none)
                (undo_two ofile fd0 fd1 rf (some wf) first0.1 first1.1))
        ]

    with_fd1_lem :
        (fd0 : ℕ)
        → IsFirst ofile fd0
        → Ended (
            with_fd1 sv table addr rf wf fd0 t1
              (update ofile fd0 (some rf))
              (fdalloc wf (update ofile fd0 (some rf))))
    unfolding with_fd1
    with_fd1_lem fd0 first0 =
        let of1 = update ofile fd0 (some rf) in
        elim (fdalloc_lem wf of1) [
          | inl (full, all) ↦
              let only : (a : ℕ) → a < nofile → ofile a ≡ none → a ≡ fd0 = λ a la ea.
                elim (Bool-cases (a == fd0)) [
                  | inl h ↦ ground (arith, h)
                  | inr h ↦ absurd (all a la (ground (arith, h, ea)))
                ] in
              let few : FewFds = λ a b la lb ea eb. only a la ea ∙ sym (only b lb eb) in
              subst (λ o. Ended (with_fd1 sv table addr rf wf fd0 t1 of1 o)) (sym full)
                (undone_lem t1.rest (inl (refl, few)) (update of1 fd0 none)
                  (undo_one ofile fd0 (some rf) first0.1))
          | inr (fd1, found, first1) ↦
              subst (λ o. Ended (with_fd1 sv table addr rf wf fd0 t1 of1 o)) (sym found)
                (found_lem fd0 fd1 first0 first1)
        ]

    with_fd0_lem : Ended (with_fd0 sv table addr rf wf t1 ofile (fdalloc rf ofile))
    unfolding with_fd0
    with_fd0_lem = elim (fdalloc_lem rf ofile) [
      | inl (full, all) ↦
          subst (λ o. Ended (with_fd0 sv table addr rf wf t1 ofile o)) (sym full)
            (undone_lem t1.rest (inl (refl, λ a b la lb ea eb. absurd (all a la ea))) ofile refl)
      | inr (fd0, found, first0) ↦
          subst (λ o. Ended (with_fd0 sv table addr rf wf t1 ofile o)) (sym found)
            (with_fd1_lem fd0 first0)
    ]

  with_pipe_lem :
      (r : Option (ℕ × ℕ) × Ftable M)
      → PipeOutcome sv ofile others t room c r
      → Ended (with_pipe sv table addr ofile r)
  unfolding with_pipe
  with_pipe_lem (none, t1) (c1, refused) =
      ((err, ofile, t1), refl, c1, inl (refl, refl, inl refused))
  with_pipe_lem (some (rf, wf), t1) made = with_fd0_lem rf wf t1 made

  -- With a reference for each descriptor that holds a file, and room for more, sys_pipe does not
  -- panic and keeps the references so. It returns 0 if the first two descriptors without a file
  -- hold the ends of a new empty pipe afterwards and their numbers have been copied to the user.
  -- Else it returns -1, the descriptors are as before, and there were less than two files or
  -- descriptors left or no page, or a copy has failed; a page that it took is freed.
  pub sys_pipe_lem : Ended (sys_pipe sv table addr ofile t)
  unfolding sys_pipe
  sys_pipe_lem =
      let (r, made, how) = pipealloc_lem sv ofile others t room c in rw made (with_pipe_lem r how)
