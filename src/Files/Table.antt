-- ===== src/Files/Table.antt =====
-- filealloc, filedup and fileclose of kernel/file.c on counted references.
use jklnkhbv.Base.{
  ℕ, ◌+◌, ◌^◌, ◌≤◌, ◌<◌, ◌≡◌, ◌≢◌, ◌⊎◌, inl, inr, refl, ap, ◌∙◌, sym, subst, true, Bool-cases,
  Option-cases, ◌==◌, Option, none, some, add32, sub32, find_from, find_from-some, find_from-none,
  arith,
}
use jklnkhbv.Proc.{nofile}
use jklnkhbv.Proc.Services.{Services}
use jklnkhbv.Files.{
  FileType, fd_none, fd_pipe, fd_inode, fd_device, File, Ftable, nfile, set_file, take_file,
  is_held, filealloc, filedup, fileclose, last_close,
}
use jklnkhbv.Files.Counted.{count, count-bound, hold, Counted}

module _ {M : Type 0} where
  pub moved-Counted :
      {ofile : ℕ → Option ℕ} {others : ℕ → ℕ} {t t' : Ftable M}
      → t'.file ≡ t.file
      → Counted ofile others t
      → Counted ofile others t'
  moved-Counted e c = record {
    refs = λ f h. ap (λ file. (file f).ref) e ∙ c.refs f h;
    real = c.real;
    idle =
        λ f h z. ap (λ file. (file f).typ) e ∙ c.idle f h (sym (ap (λ file. (file f).ref) e) ∙ z);
  }

  pub put-Counted :
      {ofile : ℕ → Option ℕ} {others others' : ℕ → ℕ} {t : Ftable M} (f : ℕ) (x : File)
      → x.ref ≡ count nofile 0 ofile f + others' f
      → ((g : ℕ) → f ≢ g → others' g ≡ others g)
      → (x.ref ≡ 0 → x.typ ≡ fd_none)
      → Counted ofile others t
      → Counted ofile others' (set_file f x t)
  put-Counted {ofile} {others} {others'} {t} f x now same_others no_type c = record {
    refs = λ g h. ground (arith, now, same_others g, c.refs g h);
    real = c.real;
    idle = λ g h z. ground (arith, no_type, c.idle g h, z);
  }

module _ {M : Type 0} (ofile : ℕ → Option ℕ) (others : ℕ → ℕ) (t : Ftable M) where
  abbrev pub AllocOutcome : Option ℕ × Ftable M → Type 0
  AllocOutcome (none, t') = (t' ≡ t) × ((f : ℕ) → f < nfile → (t.file f).ref ≢ 0)
  AllocOutcome (some f, t') =
      (f < nfile)
      × ((t.file f).ref ≡ 0)
      × (t' ≡ set_file f (record (t.file f) { ref = 1 }) t)
      × Counted ofile (hold f others) t'

  pub filealloc_lem : Counted ofile others t → AllocOutcome (filealloc t)
  unfolding filealloc
  filealloc_lem c = elim (Option-cases (find_from (λ f. (t.file f).ref == 0) nfile 0)) [
    | inl full ↦
        subst (λ o. AllocOutcome (take_file o t)) (sym full)
          (
            refl,
            λ f lt z. ground (
              arith,
              find_from-none (λ f. (t.file f).ref == 0) nfile 0 f full (omega arith) lt,
              z,
            ),
          )
    | inr (f, e) ↦
        let found = find_from-some (λ f. (t.file f).ref == 0) nfile 0 f e in
        let lt : f < nfile = omega (arith, found.2) in
        let zero_ref : (t.file f).ref ≡ 0 = ground (arith, found.0) in
        subst (λ o. AllocOutcome (take_file o t)) (sym e)
          (
            lt,
            zero_ref,
            refl,
            put-Counted f (record (t.file f) { ref = 1 }) (ground (arith, c.refs f lt, zero_ref))
                (λ g off. ground (arith, off)) (λ one. absurd (omega (arith, one))) c,
          )
  ]

  -- With room for one more, a file with references gets one.
  pub filedup_lem :
      (f : ℕ)
      → f < nfile
      → 1 ≤ count nofile 0 ofile f + others f
      → others f + nofile + 1 < 2 ^ 31
      → Counted ofile others t
      → (t' : Ftable M) × (filedup f t ≡ some t')
        × (t' ≡ set_file f (record (t.file f) { ref = (t.file f).ref + 1 }) t)
        × Counted ofile (hold f others) t'
  unfolding filedup
  filedup_lem f lt held room c =
      let refs = c.refs f lt in
      let few = count-bound nofile 0 ofile f in
      let live : is_held (t.file f).ref ≡ true = ground (arith, refs, few, held, room) in
      let more : add32 (t.file f).ref 1 ≡ (t.file f).ref + 1 =
        ground (arith, refs, few, held, room) in
      let x = record (t.file f) { ref = (t.file f).ref + 1 } in
      (
        set_file f x t,
        rw live (ap (λ r. some (set_file f (record (t.file f) { ref = r }) t)) more),
        refl,
        put-Counted f x (ground (arith, refs)) (λ g off. ground (arith, off))
            (λ none_left. absurd (omega (arith, none_left))) c,
      )

module _ {M : Type 0} (sv : Services M) where
  pub last_close-file :
      (typ : FileType) (ff : File) (t : Ftable M) → (last_close sv typ ff t).file ≡ t.file
  unfolding last_close
  last_close-file fd_none ff t = refl
  last_close-file fd_pipe ff t = refl
  last_close-file fd_inode ff t = refl
  last_close-file fd_device ff t = refl

  -- The file without references and type.
  abbrev pub closed : ℕ → Ftable M → Ftable M
  closed f t = set_file f (record (t.file f) { ref = 0; typ = fd_none }) t

  module _ (ofile : ℕ → Option ℕ) (others : ℕ → ℕ) (t : Ftable M) (f : ℕ) where
    -- Only the last reference closes what stands behind the file.
    abbrev pub CloseOutcome : Ftable M → Type 0
    CloseOutcome t' =
        ((1 ≤ count nofile 0 ofile f + others f)
          × (t' ≡ set_file f (record (t.file f) { ref = count nofile 0 ofile f + others f }) t))
        ⊎ ((count nofile 0 ofile f + others f ≡ 0)
            × (t' ≡ last_close sv (t.file f).typ (t.file f) (closed f t)))

    pub fileclose_lem :
        f < nfile
        → others f + nofile + 1 < 2 ^ 31
        → Counted ofile (hold f others) t
        → (t' : Ftable M) × (fileclose sv f t ≡ some t') × Counted ofile others t' × CloseOutcome t'
    unfolding fileclose
    fileclose_lem lt room c =
        let n = count nofile 0 ofile f + others f in
        let refs : (t.file f).ref ≡ n + 1 = ground (arith, c.refs f lt) in
        let few = count-bound nofile 0 ofile f in
        let live : is_held (t.file f).ref ≡ true = ground (arith, refs, few, room) in
        let less : sub32 (t.file f).ref 1 ≡ n = ground (arith, refs, few, room) in
        let same_others : (g : ℕ) → f ≢ g → others g ≡ hold f others g =
          λ g off. ground (arith, off) in
        elim (Bool-cases (is_held n)) [
          | inl left ↦
              let x = record (t.file f) { ref = n } in
              (
                set_file f x t,
                rw live (rw less (rw left refl)),
                put-Counted f x refl same_others (λ z. absurd (ground (arith, z, left))) c,
                inl (ground (arith, left), refl),
              )
          | inr last ↦
              let gone : n ≡ 0 = ground (arith, last, few, room) in
              let ff = t.file f in
              (
                last_close sv ff.typ ff (closed f t),
                rw live (rw less (rw last refl)),
                moved-Counted (last_close-file ff.typ ff (closed f t)) (
                    put-Counted f (record ff { ref = 0; typ = fd_none }) (sym gone) same_others
                      (λ z. refl) c),
                inr (gone, refl),
              )
        ]
