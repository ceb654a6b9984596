-- ===== src/Files/Calls.antt =====
-- sys_dup and sys_close of kernel/sysfile.c.
use jklnkhbv.Base.{
  sym, subst, ◌∙◌, ◌≤◌, ℕ, ◌+◌, ◌^◌, ◌<◌, ◌≡◌, ◌≢◌, ◌⊎◌, inl, inr, refl, ap, Bool, true, not,
  Bool-cases, Option-cases, ltb, Option, none, some, ℤ, pos, negsuc, update, find_from,
  find_from-some, find_from-first, find_from-none, is_some, arith,
}
use jklnkhbv.Proc.{nofile}
use jklnkhbv.Proc.Services.{Services}
use jklnkhbv.Proc.Fork.{Code, err, val}
use jklnkhbv.Files.Behind.{Behind, last_close-Behind}
use jklnkhbv.Files.{
  fd_none, last_close, Ftable, nfile, set_file, fdalloc, argfd, dup_to, dup_file, sys_dup,
  close_file, sys_close,
}
use jklnkhbv.Files.Counted.{count, count-member, Counted, take-Counted, give-Counted}
use jklnkhbv.Files.Table.{filedup_lem, fileclose_lem, closed, last_close-file}

-- `fd` is the first descriptor without a file.
abbrev pub IsFirst : (ℕ → Option ℕ) → ℕ → Type 0
IsFirst ofile fd = (fd < nofile) × (ofile fd ≡ none) × ((j : ℕ) → j < fd → ofile j ≢ none)

abbrev pub IsFull : (ℕ → Option ℕ) → Type 0
IsFull ofile = (fd : ℕ) → fd < nofile → ofile fd ≢ none

is_some-none : (o : Option ℕ) → not (is_some o) ≡ true → o ≡ none
is_some-none none h = refl
is_some-none (some a) h = cc

pub fdalloc_lem :
    (f : ℕ) (ofile : ℕ → Option ℕ)
    → ((fdalloc f ofile ≡ none) × IsFull ofile)
      ⊎ ((fd : ℕ) × (fdalloc f ofile ≡ some (fd, update ofile fd (some f))) × IsFirst ofile fd)
unfolding fdalloc
fdalloc_lem f ofile =
    let free : ℕ → Bool = λ fd. not (is_some (ofile fd)) in
    elim (Option-cases (find_from free nofile 0)) [
      | inl full ↦ inl (
        rw full refl,
        (λ fd lt e. ground (arith, find_from-none free nofile 0 fd full (omega arith) lt, e)),
      )
      | inr (fd, e) ↦
          let found = find_from-some free nofile 0 fd e in
          inr (
            fd,
            rw e refl,
            (
              omega (arith, found.2),
              is_some-none (ofile fd) found.0,
              λ j lt z. ground (arith, find_from-first free nofile 0 fd j e (omega arith) lt, z),
            ),
          )
    ]

pub argfd_lem :
    (fd : ℤ) (ofile : ℕ → Option ℕ)
    → (argfd fd ofile ≡ none)
      ⊎ ((n f : ℕ) × (fd ≡ pos n)
          × (n < nofile)
          × (ofile n ≡ some f)
          × (argfd fd ofile ≡ some (n, f)))
unfolding argfd
argfd_lem (negsuc n) ofile = inl refl
argfd_lem (pos n) ofile = elim (Bool-cases (ltb n nofile)) [
  | inr out ↦ inl (rw out refl)
  | inl in_range ↦ elim (Option-cases (ofile n)) [
    | inl e ↦ inl (rw in_range (rw e refl))
    | inr (f, e) ↦ inr (n, f, refl, ground (arith, in_range), e, rw in_range (rw e refl))
  ]
]

-- Room for one more reference to each file.
abbrev pub HasRoom : (ℕ → ℕ) → Type 0
HasRoom others = (f : ℕ) → f < nfile → others f + nofile + 2 < 2 ^ 31

module _ {M : Type 0} (sv : Services M) where
  -- The file has no references and no type any more, and what stands behind it is closed.
  abbrev pub IsShut : ℕ → Ftable M → Ftable M → Type 0
  IsShut f t t' =
      ((g : ℕ) → f ≢ g → t'.file g ≡ t.file g)
      × ((t'.file f).ref ≡ 0)
      × ((t'.file f).typ ≡ fd_none)
      × Behind sv (t.file f).typ (t.file f) t t'

  closed_lem :
      (f : ℕ) (t : Ftable M) → IsShut f t (last_close sv (t.file f).typ (t.file f) (closed sv f t))
  closed_lem f t =
      let files = last_close-file sv (t.file f).typ (t.file f) (closed sv f t) in
      (
        (λ g ne. ap (λ file. file g) files ∙ ground (arith, ne)),
        ap (λ file. (file f).ref) files ∙ ground arith,
        ap (λ file. (file f).typ) files ∙ ground arith,
        last_close-Behind sv (t.file f).typ (t.file f) t (closed sv f t).file,
      )

module _ {M : Type 0} (sv : Services M) (fd : ℤ) (ofile : ℕ → Option ℕ) (others : ℕ → ℕ)
    (t : Ftable M) (room : HasRoom others) (c : Counted ofile others t) where
  abbrev pub DupOutcome : Code × (ℕ → Option ℕ) × Ftable M → Type 0
  DupOutcome r =
      (((argfd fd ofile ≡ none) ⊎ IsFull ofile) × (r ≡ (err, ofile, t)))
      ⊎ ((n f fd1 : ℕ) × (fd ≡ pos n)
          × (n < nofile)
          × (ofile n ≡ some f)
          × IsFirst ofile fd1
          × (r ≡ (
            val fd1,
            update ofile fd1 (some f),
            set_file f (record (t.file f) { ref = (t.file f).ref + 1 }) t,
          )))

  dup_found :
      (n f : ℕ)
      → fd ≡ pos n
      → n < nofile
      → ofile n ≡ some f
      → argfd fd ofile ≡ some (n, f)
      → (r : Code × (ℕ → Option ℕ) × Ftable M) × (sys_dup sv fd ofile t ≡ some r)
        × Counted r.1 others r.2
        × DupOutcome r
  unfolding sys_dup dup_file dup_to
  dup_found n f e lt opened a =
      let real = c.real n f lt opened in
      elim (fdalloc_lem f ofile) [
        | inl (full, all) ↦ ((err, ofile, t), rw a (rw full refl), c, inl (inr all, refl))
        | inr (fd1, found, first) ↦
            let held = count-member nofile 0 ofile n f (omega arith) (omega (arith, lt)) opened in
            let (t', done, eq, c') =
              filedup_lem ofile others t f real (omega (arith, held)) (omega (arith, room f real))
                c in
            (
              (val fd1, update ofile fd1 (some f), t'),
              rw a (rw found (rw done refl)),
              take-Counted fd1 f first.0 real first.1 c',
              inr (
                n,
                f,
                fd1,
                e,
                lt,
                opened,
                first,
                ap (λ s. (val fd1, update ofile fd1 (some f), s)) eq,
              ),
            )
      ]

  -- With a reference for each descriptor that holds a file, and room for more, sys_dup does not
  -- panic and keeps the references so. If the descriptor has no file, or every descriptor has one,
  -- it returns -1 and changes nothing. Else it returns the first descriptor without a file, which
  -- then holds the same file with one more reference.
  pub sys_dup_lem :
      (r : Code × (ℕ → Option ℕ) × Ftable M) × (sys_dup sv fd ofile t ≡ some r)
      × Counted r.1 others r.2
      × DupOutcome r
  unfolding sys_dup dup_file dup_to
  sys_dup_lem = elim (argfd_lem fd ofile) [
    | inl bad ↦ ((err, ofile, t), rw bad refl, c, inl (inl bad, refl))
    | inr (n, f, e, lt, opened, a) ↦ dup_found n f e lt opened a
  ]

  abbrev pub ShutOutcome : Code × (ℕ → Option ℕ) × Ftable M → Type 0
  ShutOutcome r =
      ((argfd fd ofile ≡ none) × (r ≡ (err, ofile, t)))
      ⊎ ((n f : ℕ) × (fd ≡ pos n)
          × (n < nofile)
          × (ofile n ≡ some f)
          × (r.0 ≡ val 0)
          × (r.1 ≡ update ofile n none)
          × (((1 ≤ count nofile 0 (update ofile n none) f + others f)
                × (r.2
                    ≡ set_file f
                        (record (t.file f) {
                          ref = count nofile 0 (update ofile n none) f + others f;
                        })
                        t))
              ⊎ ((count nofile 0 (update ofile n none) f + others f ≡ 0) × IsShut sv f t r.2)))

  -- With a reference for each descriptor that holds a file, and room for more, sys_close does not
  -- panic and keeps the references so. If the descriptor has no file, it returns -1 and changes
  -- nothing. Else the descriptor has none afterwards. If another descriptor holds the file, or
  -- someone else, only its references change; if not, it has no references and no type afterwards,
  -- and nothing else happens but what follows. For a pipe the end of the file is closed, those who
  -- wait at the other end are woken, and the page is freed exactly if both ends are closed. For an
  -- inode or a device begin_op, iput of the inode and end_op follow one another.
  pub sys_close_lem :
      (r : Code × (ℕ → Option ℕ) × Ftable M) × (sys_close sv fd ofile t ≡ some r)
      × Counted r.1 others r.2
      × ShutOutcome r
  unfolding sys_close close_file
  sys_close_lem = elim (argfd_lem fd ofile) [
    | inl bad ↦ ((err, ofile, t), rw bad refl, c, inl (bad, refl))
    | inr (n, f, e, lt, opened, a) ↦
        let real = c.real n f lt opened in
        let (t', done, c', how) =
          fileclose_lem sv (update ofile n none) others t f real (omega (arith, room f real))
            (give-Counted n f lt opened c) in
        (
          (val 0, update ofile n none, t'),
          rw a (rw done refl),
          c',
          inr (
            n,
            f,
            e,
            lt,
            opened,
            refl,
            refl,
            elim how [
              | inl held ↦ inl held
              | inr (gone, eq) ↦ inr (gone, subst (IsShut sv f t) (sym eq) (closed_lem sv f t))
            ],
          ),
        )
  ]
