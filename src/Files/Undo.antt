-- ===== src/Files/Undo.antt =====
-- The end of sys_pipe of kernel/sysfile.c where it fails: both ends of the new pipe are closed.
use jklnkhbv.Base.{
  ℕ, ◌+◌, ◌^◌, ◌<◌, ◌≡◌, inl, inr, refl, ap, ◌∙◌, sym, true, false, Option, some, arith,
}
use jklnkhbv.Proc.{nofile}
use jklnkhbv.Proc.Services.{Services}
use jklnkhbv.Proc.Fork.{err}
use jklnkhbv.Pipe.{new_pipe, pipeclose}
use jklnkhbv.Files.{File, Ftable, fd_pipe, nfile, fileclose, last_close, close_both}
use jklnkhbv.Files.Counted.{count, hold, Counted}
use jklnkhbv.Files.Table.{fileclose_lem, closed, moved-Counted, last_close-file}
use jklnkhbv.Files.Calls.{HasRoom}
use jklnkhbv.Files.Ends.{IsMade}

module _ {M : Type 0} (sv : Services M) where
  close_rf :
      (ff : File) (t : Ftable M)
      → ff.writable ≡ false
      → (t.pipe ff.pipe).writeopen ≡ true
      → ((last_close sv fd_pipe ff t).rest ≡ t.rest)
        × (((last_close sv fd_pipe ff t).pipe ff.pipe).readopen ≡ false)
  unfolding last_close pipeclose
  close_rf ff t w o = (ground (arith, w, o), ground (arith, w, o))

  close_wf :
      (ff : File) (t : Ftable M)
      → ff.writable ≡ true
      → (t.pipe ff.pipe).readopen ≡ false
      → (last_close sv fd_pipe ff t).rest ≡ sv.kfree ff.pipe t.rest
  unfolding last_close pipeclose
  close_wf ff t w r = ground (arith, w, r)

module _ {M : Type 0} (sv : Services M) (ofile : ℕ → Option ℕ) where
  -- To close the only reference to a file comes to what stands behind the file.
  shut_lem :
      (others : ℕ → ℕ) (t : Ftable M) (f : ℕ)
      → f < nfile
      → others f + nofile + 1 < 2 ^ 31
      → count nofile 0 ofile f + others f ≡ 0
      → (t.file f).typ ≡ fd_pipe
      → Counted ofile (hold f others) t
      → (t' : Ftable M) × (fileclose sv f t ≡ some t')
        × Counted ofile others t'
        × (t' ≡ last_close sv fd_pipe (t.file f) (closed sv f t))
  shut_lem others t f lt room none_left typ c =
      let (t', done, c', how) = fileclose_lem sv ofile others t f lt room c in
      elim how [
        | inl (some_left, eq) ↦ absurd (omega (arith, some_left, none_left))
        | inr (gone, eq) ↦
            (t', done, c', eq ∙ ap (λ ty. last_close sv ty (t.file f) (closed sv f t)) typ)
      ]

  module _ (others : ℕ → ℕ) (t : Ftable M) (room : HasRoom others) (c : Counted ofile others t)
      (rf wf : ℕ) (t1 : Ftable M) (made : IsMade sv ofile others t room c rf wf t1) (m : M) where
    -- Both ends are closed and the page is freed.
    pub back_lem :
        (t3 : Ftable M) × (close_both sv rf wf ofile (record t1 { rest = m })
          ≡ some (err, ofile, t3))
        × Counted ofile others t3
        × ((page : ℕ) × (sv.kalloc t.rest ≡ (some page, t1.rest)) × (t3.rest ≡ sv.kfree page m))
    unfolding new_pipe
    back_lem =
        let (lt0, lt1, free0, free1, c1, (page, got, pipe)) = made in
        let zero0 : count nofile 0 ofile rf + others rf ≡ 0 =
          ground (arith, c.refs rf lt0, free0) in
        let zero1 : count nofile 0 ofile wf + others wf ≡ 0 =
          ground (arith, c.refs wf lt1, free1) in
        let (t2, done2, c2, e2) =
          shut_lem (hold wf others) (record t1 { rest = m }) rf lt0 (ground (arith, room rf lt0))
            (ground (arith, zero0, pipe.apart)) pipe.rf_type (moved-Counted refl c1) in
        let shut = closed sv rf (record t1 { rest = m }) in
        let file2 : t2.file wf ≡ t1.file wf =
          ap (λ s. s.file wf) e2
          ∙ (ap (λ file. file wf) (last_close-file sv fd_pipe (t1.file rf) shut)
              ∙ ground (arith, pipe.apart)) in
        let (t3, done3, c3, e3) =
          shut_lem others t2 wf lt1 (omega (arith, room wf lt1)) zero1
            (ap (λ x. x.typ) file2 ∙ pipe.wf_type) c2 in
        let first =
          close_rf sv (t1.file rf) shut pipe.rf_writable
            (ap (λ k. (t1.pipe k).writeopen) pipe.rf_pipe ∙ ap (λ p. p.writeopen) pipe.fresh.1) in
        let at : (t2.file wf).pipe ≡ (t1.file rf).pipe =
          ap (λ x. x.pipe) file2 ∙ (pipe.wf_pipe ∙ sym pipe.rf_pipe) in
        let second =
          close_wf sv (t2.file wf) (closed sv wf t2) (ap (λ x. x.writable) file2 ∙ pipe.wf_writable)
            (ap (λ k. (t2.pipe k).readopen) at
              ∙ (ap (λ s. (s.pipe (t1.file rf).pipe).readopen) e2 ∙ first.1)) in
        let freed : t3.rest ≡ sv.kfree page m =
          ap (λ s. s.rest) e3
          ∙ (second
              ∙ (ap (λ k. sv.kfree k t2.rest) (at ∙ pipe.rf_pipe)
                  ∙ ap (sv.kfree page) (ap (λ s. s.rest) e2 ∙ first.0))) in
        (t3, rw done2 (rw done3 refl), c3, (page, got, freed))
