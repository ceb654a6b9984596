-- ===== src/Files.antt =====
-- The table of open files of kernel/file.c, `pipealloc` of kernel/pipe.c, and the system calls of
-- kernel/sysfile.c on the descriptors of a process.
pub mod Counted
pub mod Table
pub mod Behind
pub mod Calls
pub mod Ends
pub mod Undo
pub mod SysPipe
mod Examples
use jklnkhbv.Base.{
  ℕ, ◌+◌, ◌^◌, Bool, true, false, not, Option, none, some, List, [], ◌∷◌, ◌++◌, ℤ, pos, negsuc,
  update, add32, sub32, find_from, ◌==◌, ltb, ◌&&◌, is_some, ◌>>=◌, if◌then◌else◌,
}
use jklnkhbv.Proc.{Chan, nofile}
use jklnkhbv.Proc.Services.{Services}
use jklnkhbv.Proc.Fork.{Code, err, val}
use jklnkhbv.Proc.Exit.{int_bytes}
use jklnkhbv.Pipe.{Pipe, new_pipe, pipeclose}

abbrev pub nfile : ℕ
nfile = 100

pub data FileType : Type 0 where
  fd_none : FileType
  fd_pipe : FileType
  fd_inode : FileType
  fd_device : FileType

-- `ref` has the 32 bits of an int, and `pipe` the address of a page.
pub record File : Type 0 where
  pub typ : FileType
  pub ref : ℕ
  pub readable : Bool
  pub writable : Bool
  pub pipe : ℕ
  pub ip : ℕ
  pub off : ℕ
  pub major : ℕ

-- `pipe` has the pipes by their pages, and `woken` the channels on which processes were woken.
pub record Ftable (M : Type 0) : Type 0 where
  pub file : ℕ → File
  pub pipe : ℕ → Pipe
  pub rest : M
  pub woken : List Chan

-- `r >= 1` for the 32 bits of an int.
abbrev pub is_held : ℕ → Bool
is_held r = ltb 0 r && ltb r (2 ^ 31)

module _ {M : Type 0} where
  abbrev pub set_file : ℕ → File → Ftable M → Ftable M
  set_file f x t = record t { file = update t.file f x }

  abbrev pub take_file : Option ℕ → Ftable M → Option ℕ × Ftable M
  take_file none t = (none, t)
  take_file (some f) t = (some f, set_file f (record (t.file f) { ref = 1 }) t)

  unfoldable pub filealloc : Ftable M → Option ℕ × Ftable M
  filealloc t = take_file (find_from (λ f. (t.file f).ref == 0) nfile 0) t

  -- `none` is a panic.
  unfoldable pub filedup : ℕ → Ftable M → Option (Ftable M)
  filedup f t =
      let x = t.file f in
      if is_held x.ref then some (set_file f (record x { ref = add32 x.ref 1 }) t) else none

  -- The two ends of the pipe in `page`; what the page held is what stands there before.
  unfoldable pub ends : ℕ → ℕ → ℕ → Ftable M → Ftable M
  ends f0 f1 page t =
      let t1 = record t { pipe = update t.pipe page (new_pipe (t.pipe page).cells) } in
      let x0 = record (t1.file f0) {
        typ = fd_pipe;
        readable = true;
        writable = false;
        pipe = page;
      } in
      let t2 = set_file f0 x0 t1 in
      let x1 = record (t2.file f1) {
        typ = fd_pipe;
        readable = false;
        writable = true;
        pipe = page;
      } in
      set_file f1 x1 t2

-- `for(fd = 0; fd < NOFILE; fd++) if(p->ofile[fd] == 0) …`
unfoldable pub fdalloc : ℕ → (ℕ → Option ℕ) → Option (ℕ × (ℕ → Option ℕ))
fdalloc f ofile = find_from (λ fd. not (is_some (ofile fd))) nofile 0 >>= λ fd.
    some (fd, update ofile fd (some f))

unfoldable pub argfd : ℤ → (ℕ → Option ℕ) → Option (ℕ × ℕ)
argfd (negsuc n) ofile = none
argfd (pos fd) ofile = if ltb fd nofile then (ofile fd >>= λ f. some (fd, f)) else none

module _ {M : Type 0} (sv : Services M) where
  abbrev pub close_pipe : File → Ftable M → Ftable M
  close_pipe ff t =
      let (p, dead, chan) = pipeclose ff.pipe ff.writable (t.pipe ff.pipe) in
      record t {
        pipe = update t.pipe ff.pipe p;
        rest = if dead then sv.kfree ff.pipe t.rest else t.rest;
        woken = t.woken ++ (chan ∷ []);
      }

  abbrev pub close_inode : File → Ftable M → Ftable M
  close_inode ff t =
      let (m, chans) = sv.iput ff.ip (sv.begin_op t.rest) in
      let (m', chans') = sv.end_op m in record t { rest = m'; woken = t.woken ++ (chans ++ chans') }

  -- The part of `fileclose` behind `release`.
  unfoldable pub last_close : FileType → File → Ftable M → Ftable M
  last_close fd_none ff t = t
  last_close fd_pipe ff t = close_pipe ff t
  last_close fd_inode ff t = close_inode ff t
  last_close fd_device ff t = close_inode ff t

  -- `none` is a panic.
  unfoldable pub fileclose : ℕ → Ftable M → Option (Ftable M)
  fileclose f t =
      let ff = t.file f in
      let r = sub32 ff.ref 1 in
      if not (is_held ff.ref)
      then none
      else if is_held r
      then some (set_file f (record ff { ref = r }) t)
      else some (last_close ff.typ ff (set_file f (record ff { ref = 0; typ = fd_none }) t))

  -- The label `bad` of `pipealloc`, where there is no page.
  abbrev pub close_some : Option ℕ → Ftable M → Option (Ftable M)
  close_some none t = some t
  close_some (some f) t = fileclose f t

  abbrev pub bad : Option ℕ → Option ℕ → Ftable M → Option (Option (ℕ × ℕ) × Ftable M)
  bad f0 f1 t = close_some f0 t >>= λ t1. close_some f1 t1 >>= λ t2. some (none, t2)

  unfoldable pub with_page : ℕ → ℕ → Ftable M → Option ℕ × M → Option (Option (ℕ × ℕ) × Ftable M)
  with_page f0 f1 t (none, m) = bad (some f0) (some f1) (record t { rest = m })
  with_page f0 f1 t (some page, m) = some (some (f0, f1), ends f0 f1 page (record t { rest = m }))

  unfoldable pub with_second : ℕ → Option ℕ × Ftable M → Option (Option (ℕ × ℕ) × Ftable M)
  with_second f0 (none, t) = bad (some f0) none t
  with_second f0 (some f1, t) = with_page f0 f1 t (sv.kalloc t.rest)

  unfoldable pub with_first : Option ℕ × Ftable M → Option (Option (ℕ × ℕ) × Ftable M)
  with_first (none, t) = bad none none t
  with_first (some f0, t) = with_second f0 (filealloc t)

  -- The two files, or -1 as `none`. The outer `none` is a panic.
  unfoldable pub pipealloc : Ftable M → Option (Option (ℕ × ℕ) × Ftable M)
  pipealloc t = with_first (filealloc t)

  abbrev pub Result : Type 0
  Result = Option (Code × (ℕ → Option ℕ) × Ftable M)

  -- The system calls take the descriptors of the caller. `none` is a panic.
  unfoldable pub dup_to : ℕ → (ℕ → Option ℕ) → Ftable M → Option (ℕ × (ℕ → Option ℕ)) → Result
  dup_to f ofile t none = some (err, ofile, t)
  dup_to f ofile t (some (fd, ofile')) = filedup f t >>= λ t'. some (val fd, ofile', t')

  unfoldable pub dup_file : (ℕ → Option ℕ) → Ftable M → Option (ℕ × ℕ) → Result
  dup_file ofile t none = some (err, ofile, t)
  dup_file ofile t (some (fd, f)) = dup_to f ofile t (fdalloc f ofile)

  unfoldable pub sys_dup : ℤ → (ℕ → Option ℕ) → Ftable M → Result
  sys_dup fd ofile t = dup_file ofile t (argfd fd ofile)

  unfoldable pub close_file : (ℕ → Option ℕ) → Ftable M → Option (ℕ × ℕ) → Result
  close_file ofile t none = some (err, ofile, t)
  close_file ofile t (some (fd, f)) = fileclose f t >>= λ t'. some (val 0, update ofile fd none, t')

  unfoldable pub sys_close : ℤ → (ℕ → Option ℕ) → Ftable M → Result
  sys_close fd ofile t = close_file ofile t (argfd fd ofile)

  abbrev pub close_both : ℕ → ℕ → (ℕ → Option ℕ) → Ftable M → Result
  close_both rf wf ofile t =
      fileclose rf t >>= λ t1. fileclose wf t1 >>= λ t2. some (err, ofile, t2)

  module _ (table addr : ℕ) where
    -- The copies of the two descriptors to the user, up to the first that fails.
    unfoldable pub copy_fds : ℕ → ℕ → M → Bool × M
    copy_fds fd0 fd1 m =
        let (copied, m1) = sv.copyout table addr (int_bytes fd0) m in
        if copied then sv.copyout table (addr + 4) (int_bytes fd1) m1 else (false, m1)

    unfoldable pub with_fd1 :
        ℕ → ℕ → ℕ → Ftable M → (ℕ → Option ℕ) → Option (ℕ × (ℕ → Option ℕ)) → Result
    with_fd1 rf wf fd0 t ofile none = close_both rf wf (update ofile fd0 none) t
    with_fd1 rf wf fd0 t ofile (some (fd1, ofile')) =
        let (copied, m) = copy_fds fd0 fd1 t.rest in
        if copied
        then some (val 0, ofile', record t { rest = m })
        else close_both rf wf (update (update ofile' fd0 none) fd1 none) (record t { rest = m })

    unfoldable pub with_fd0 :
        ℕ → ℕ → Ftable M → (ℕ → Option ℕ) → Option (ℕ × (ℕ → Option ℕ)) → Result
    with_fd0 rf wf t ofile none = close_both rf wf ofile t
    with_fd0 rf wf t ofile (some (fd0, ofile')) = with_fd1 rf wf fd0 t ofile' (fdalloc wf ofile')

    unfoldable pub with_pipe : (ℕ → Option ℕ) → Option (ℕ × ℕ) × Ftable M → Result
    with_pipe ofile (none, t) = some (err, ofile, t)
    with_pipe ofile (some (rf, wf), t) = with_fd0 rf wf t ofile (fdalloc rf ofile)

    unfoldable pub sys_pipe : (ℕ → Option ℕ) → Ftable M → Result
    sys_pipe ofile t = pipealloc t >>= with_pipe ofile
