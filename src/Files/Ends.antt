-- ===== src/Files/Ends.antt =====
-- pipealloc of kernel/pipe.c, on counted references.
use jklnkhbv.Base.{
  ℕ, ◌+◌, ◌^◌, ◌<◌, ◌≡◌, ◌≢◌, ◌⊎◌, inl, inr, refl, ap, ◌∙◌, sym, subst, true, false, Bool-cases,
  ◌==◌, Option, none, some, update, arith,
}
use jklnkhbv.Proc.{nofile}
use jklnkhbv.Proc.Services.{Services}
use jklnkhbv.Pipe.{new_pipe}
use jklnkhbv.Files.{
  File, Ftable, fd_none, fd_pipe, nfile, set_file, filealloc, fileclose, last_close, ends,
  with_page, with_second, with_first, pipealloc,
}
use jklnkhbv.Files.Counted.{count, hold, Counted}
use jklnkhbv.Files.Table.{
  filealloc_lem, fileclose_lem, AllocOutcome, closed, moved-Counted, put-Counted,
}
use jklnkhbv.Files.Calls.{HasRoom}

-- `rf` and `wf` are the ends of the pipe in `page`, to which nothing has been written.
pub record IsPipe {M : Type 0} (rf wf page : ℕ) (t : Ftable M) : Type 0 where
  pub apart : rf ≢ wf
  pub rf_type : (t.file rf).typ ≡ fd_pipe
  pub rf_readable : (t.file rf).readable ≡ true
  pub rf_writable : (t.file rf).writable ≡ false
  pub rf_pipe : (t.file rf).pipe ≡ page
  pub wf_type : (t.file wf).typ ≡ fd_pipe
  pub wf_readable : (t.file wf).readable ≡ false
  pub wf_writable : (t.file wf).writable ≡ true
  pub wf_pipe : (t.file wf).pipe ≡ page
  pub fresh : (junk : ℕ → ℕ) × (t.pipe page ≡ new_pipe junk)

module _ {M : Type 0} where
  -- No pipe, page or process is touched between the two states.
  abbrev pub IsQuiet : Ftable M → Ftable M → Type 0
  IsQuiet t t' = (t'.rest ≡ t.rest) × (t'.pipe ≡ t.pipe) × (t'.woken ≡ t.woken)

  pub swap-Counted :
      {ofile : ℕ → Option ℕ} {t : Ftable M} (others : ℕ → ℕ) (f g : ℕ)
      → Counted ofile (hold f (hold g others)) t
      → Counted ofile (hold g (hold f others)) t
  swap-Counted others f g c = record {
    refs = λ h lt. ground (arith, c.refs h lt);
    real = c.real;
    idle = c.idle;
  }

module _ {M : Type 0} (sv : Services M) (ofile : ℕ → Option ℕ) where
  -- To close a file that has just been allocated only gives it back.
  drop_lem :
      (others : ℕ → ℕ) (t : Ftable M) (f : ℕ)
      → f < nfile
      → others f + nofile + 1 < 2 ^ 31
      → (t.file f).typ ≡ fd_none
      → count nofile 0 ofile f + others f ≡ 0
      → Counted ofile (hold f others) t
      → (t' : Ftable M) × (fileclose sv f t ≡ some t')
        × Counted ofile others t'
        × IsQuiet t t'
        × ((g : ℕ) → f ≢ g → t'.file g ≡ t.file g)
  unfolding last_close
  drop_lem others t f lt room typ none_left c =
      let (t', done, c', how) = fileclose_lem sv ofile others t f lt room c in
      elim how [
        | inl (some_left, eq) ↦ absurd (omega (arith, some_left, none_left))
        | inr (gone, eq) ↦
            let closing : t' ≡ closed sv f t =
              eq ∙ ap (λ ty. last_close sv ty (t.file f) (closed sv f t)) typ in
            (
              t',
              done,
              c',
              (ap (λ s. s.rest) closing, ap (λ s. s.pipe) closing, ap (λ s. s.woken) closing),
              (λ g off. ap (λ s. s.file g) closing ∙ ground (arith, off)),
            )
      ]

module _ {M : Type 0} (sv : Services M) (ofile : ℕ → Option ℕ) (others : ℕ → ℕ) (t : Ftable M)
    (room : HasRoom others) (c : Counted ofile others t) where
  -- At most one file has no references.
  abbrev pub FewFiles : Type 0
  FewFiles = (f g : ℕ) → f < nfile → g < nfile → (t.file f).ref ≡ 0 → (t.file g).ref ≡ 0 → f ≡ g

  -- Nothing has changed, for want of files or of a page.
  abbrev pub IsRefused : Ftable M → Type 0
  IsRefused t' =
      (t'.pipe ≡ t.pipe)
      × (t'.woken ≡ t.woken)
      × (((t'.rest ≡ t.rest) × FewFiles) ⊎ (sv.kalloc t.rest ≡ (none, t'.rest)))

  abbrev pub IsMade : ℕ → ℕ → Ftable M → Type 0
  IsMade rf wf t' =
      (rf < nfile)
      × (wf < nfile)
      × ((t.file rf).ref ≡ 0)
      × ((t.file wf).ref ≡ 0)
      × Counted ofile (hold rf (hold wf others)) t'
      × ((page : ℕ) × (sv.kalloc t.rest ≡ (some page, t'.rest)) × IsPipe rf wf page t')

  abbrev pub PipeOutcome : Option (ℕ × ℕ) × Ftable M → Type 0
  PipeOutcome (none, t') = Counted ofile others t' × IsRefused t'
  PipeOutcome (some (rf, wf), t') = IsMade rf wf t'

  abbrev Ends : Option (Option (ℕ × ℕ) × Ftable M) → Type 0
  Ends o = (r : Option (ℕ × ℕ) × Ftable M) × (o ≡ some r) × PipeOutcome r

  -- Two files that have just been allocated.
  record Two (f0 f1 : ℕ) (t2 : Ftable M) : Type 0 where
    lt0 : f0 < nfile
    lt1 : f1 < nfile
    free0 : (t.file f0).ref ≡ 0
    free1 : (t.file f1).ref ≡ 0
    off : f0 ≢ f1
    type0 : (t2.file f0).typ ≡ fd_none
    type1 : (t2.file f1).typ ≡ fd_none
    one0 : (t2.file f0).ref ≡ 1
    one1 : (t2.file f1).ref ≡ 1
    counted : Counted ofile (hold f1 (hold f0 others)) t2
    quiet : IsQuiet t t2

  with_page_lem :
      (f0 f1 : ℕ) (t2 : Ftable M)
      → Two f0 f1 t2
      → (page : Option ℕ × M) → sv.kalloc t.rest ≡ page
      → Ends (with_page sv f0 f1 t2 page)
  unfolding with_page ends
  with_page_lem f0 f1 t2 two (none, m) e =
      let zero0 : count nofile 0 ofile f0 + others f0 ≡ 0 =
        ground (arith, c.refs f0 two.lt0, two.free0) in
      let zero1 : count nofile 0 ofile f1 + others f1 ≡ 0 =
        ground (arith, c.refs f1 two.lt1, two.free1) in
      let t3 : Ftable M = record t2 { rest = m } in
      let (t4, done4, c4, q4, kept4) =
        drop_lem sv ofile (hold f1 others) t3 f0 two.lt0 (ground (arith, room f0 two.lt0)) two.type0
          (ground (arith, zero0, two.off))
          (swap-Counted others f1 f0 (moved-Counted refl two.counted)) in
      let type4 : (t4.file f1).typ ≡ fd_none = ap (λ x. x.typ) (kept4 f1 two.off) ∙ two.type1 in
      let (t5, done5, c5, q5, kept5) =
        drop_lem sv ofile others t4 f1 two.lt1 (omega (arith, room f1 two.lt1)) type4 zero1 c4 in
      (
        (none, t5),
        rw done4 (rw done5 refl),
        (
          c5,
          (
            q5.1 ∙ q4.1 ∙ two.quiet.1,
            q5.2 ∙ q4.2 ∙ two.quiet.2,
            inr (e ∙ ap (λ r. (none, r)) (sym (q5.0 ∙ q4.0))),
          ),
        ),
      )
  with_page_lem f0 f1 t2 two (some page, m) e =
      let t3 : Ftable M = record t2 {
        rest = m;
        pipe = update t2.pipe page (new_pipe (t2.pipe page).cells);
      } in
      let x0 : File = record (t2.file f0) {
        typ = fd_pipe;
        readable = true;
        writable = false;
        pipe = page;
      } in
      let t4 = set_file f0 x0 t3 in
      let x1 : File = record (t4.file f1) {
        typ = fd_pipe;
        readable = false;
        writable = true;
        pipe = page;
      } in
      let c4 : Counted ofile (hold f1 (hold f0 others)) t4 =
        put-Counted f0 x0 (two.counted.refs f0 two.lt0) (λ g ne. refl)
          (λ z. absurd (omega (arith, z, two.one0))) (moved-Counted refl two.counted) in
      let c5 : Counted ofile (hold f1 (hold f0 others)) (set_file f1 x1 t4) =
        put-Counted f1 x1 (c4.refs f1 two.lt1) (λ g ne. refl)
          (λ z. absurd (ground (arith, z, two.one1, two.off))) c4 in
      (
        (some (f0, f1), ends f0 f1 page (record t2 { rest = m })),
        refl,
        (
          two.lt0,
          two.lt1,
          two.free0,
          two.free1,
          swap-Counted others f1 f0 c5,
          (
            page,
            e,
            record {
              apart = two.off;
              rf_type = ground (arith, two.off);
              rf_readable = ground (arith, two.off);
              rf_writable = ground (arith, two.off);
              rf_pipe = ground (arith, two.off);
              wf_type = ground arith;
              wf_readable = ground arith;
              wf_writable = ground arith;
              wf_pipe = ground arith;
              fresh = ((t2.pipe page).cells, ground arith);
            },
          ),
        ),
      )

  with_second_lem :
      (f0 : ℕ) (t1 : Ftable M)
      → f0 < nfile
      → (t.file f0).ref ≡ 0
      → t1 ≡ set_file f0 (record (t.file f0) { ref = 1 }) t
      → Counted ofile (hold f0 others) t1
      → (r : Option ℕ × Ftable M) → AllocOutcome ofile (hold f0 others) t1 r
      → Ends (with_second sv f0 r)
  unfolding with_second
  with_second_lem f0 t1 lt0 free0 e1 c1 (none, t2) (e2, all_held) =
      let type0 : (t2.file f0).typ ≡ fd_none =
        ap (λ s. (s.file f0).typ) (e2 ∙ e1) ∙ ground (arith, c.idle f0 lt0 free0) in
      let zero0 : count nofile 0 ofile f0 + others f0 ≡ 0 = ground (arith, c.refs f0 lt0, free0) in
      let only : (f : ℕ) → f < nfile → (t.file f).ref ≡ 0 → f ≡ f0 = λ f lt z.
        elim (Bool-cases (f == f0)) [
          | inl h ↦ ground (arith, h)
          | inr h ↦ absurd (all_held f lt (ap (λ s. (s.file f).ref) e1 ∙ ground (arith, h, z)))
        ] in
      let few : FewFiles = λ f g ltf ltg zf zg. only f ltf zf ∙ sym (only g ltg zg) in
      let (t3, done, c3, q, kept) =
        drop_lem sv ofile others t2 f0 lt0 (omega (arith, room f0 lt0)) type0 zero0
          (subst (Counted ofile (hold f0 others)) (sym e2) c1) in
      (
        (none, t3),
        rw done refl,
        (
          c3,
          (
            q.1 ∙ ap (λ s. s.pipe) (e2 ∙ e1),
            q.2 ∙ ap (λ s. s.woken) (e2 ∙ e1),
            inl (q.0 ∙ ap (λ s. s.rest) (e2 ∙ e1), few),
          ),
        ),
      )
  with_second_lem f0 t1 lt0 free0 e1 c1 (some f1, t2) (lt1, free1, e2, c2) =
      let one : (t1.file f0).ref ≡ 1 = ap (λ s. (s.file f0).ref) e1 ∙ ground arith in
      let off : f0 ≢ f1 = λ e. absurd (omega (arith, one, free1, ap (λ f. (t1.file f).ref) e)) in
      let rest : t2.rest ≡ t.rest = ap (λ s. s.rest) e2 ∙ ap (λ s. s.rest) e1 in
      let old1 : t1.file f1 ≡ t.file f1 = ap (λ s. s.file f1) e1 ∙ ground (arith, off) in
      let old0 : t2.file f0 ≡ t1.file f0 = ap (λ s. s.file f0) e2 ∙ ground (arith, off) in
      let was_free : (t.file f1).ref ≡ 0 = ap (λ x. x.ref) (sym old1) ∙ free1 in
      with_page_lem f0 f1 t2
        record {
          lt0 = lt0;
          lt1 = lt1;
          free0 = free0;
          free1 = was_free;
          off = off;
          type0 =
              ap (λ x. x.typ) old0
              ∙ (ap (λ s. (s.file f0).typ) e1 ∙ ground (arith, c.idle f0 lt0 free0));
          type1 =
              ap (λ s. (s.file f1).typ) e2
              ∙ ground (arith, ap (λ x. x.typ) old1 ∙ c.idle f1 lt1 was_free);
          one0 = ap (λ x. x.ref) old0 ∙ one;
          one1 = ap (λ s. (s.file f1).ref) e2 ∙ ground arith;
          counted = c2;
          quiet = (
            rest,
            ap (λ s. s.pipe) e2 ∙ ap (λ s. s.pipe) e1,
            ap (λ s. s.woken) e2 ∙ ap (λ s. s.woken) e1,
          );
        }
        (sv.kalloc t2.rest) (ap sv.kalloc (sym rest))

  with_first_lem :
      (r : Option ℕ × Ftable M) → AllocOutcome ofile others t r → Ends (with_first sv r)
  unfolding with_first
  with_first_lem (none, t1) (e1, all_held) = (
    (none, t1),
    refl,
    (
      subst (Counted ofile others) (sym e1) c,
      (
        ap (λ s. s.pipe) e1,
        ap (λ s. s.woken) e1,
        inl (ap (λ s. s.rest) e1, λ f g ltf ltg zf zg. absurd (all_held f ltf zf)),
      ),
    ),
  )
  with_first_lem (some f0, t1) (lt0, free0, e1, c1) =
      with_second_lem f0 t1 lt0 free0 e1 c1 (filealloc t1)
        (filealloc_lem ofile (hold f0 others) t1 c1)

  -- pipealloc does not panic. It makes the two ends of a new pipe from two files without
  -- references, or leaves every file with its references and no pipe closed.
  pub pipealloc_lem : Ends (pipealloc sv t)
  unfolding pipealloc
  pipealloc_lem = with_first_lem (filealloc t) (filealloc_lem ofile others t c)
