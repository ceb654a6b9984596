-- ===== src/Files/Behind.antt =====
-- What stands behind a file when its last reference is closed, for fileclose of kernel/file.c.
use jklnkhbv.Base.{
  ℕ, ◌≡◌, ◌≢◌, refl, not, ◌&&◌, ◌||◌, ◌++◌, [], ◌∷◌, Bool-cases, inl, inr, arith, if◌then◌else◌,
}
use jklnkhbv.Proc.Services.{Services}
use jklnkhbv.Pipe.{nread_chan, nwrite_chan, pipeclose}
use jklnkhbv.Files.{
  FileType, fd_none, fd_pipe, fd_inode, fd_device, File, Ftable, close_pipe, last_close,
}

module _ {M : Type 0} (sv : Services M) where
  -- What becomes of what stands behind the file `x`. An end of a pipe is closed, those who wait at
  -- the other end are woken, and the page is freed once both ends are closed. A reference to an inode
  -- is given up, as an operation of the log.
  abbrev pub Behind : FileType → File → Ftable M → Ftable M → Type 0
  Behind fd_none x t t' = (t'.rest ≡ t.rest) × (t'.pipe ≡ t.pipe) × (t'.woken ≡ t.woken)
  Behind fd_pipe x t t' =
      ((q : ℕ) → x.pipe ≢ q → t'.pipe q ≡ t.pipe q)
      × (t'.pipe x.pipe ≡ record (t.pipe x.pipe) {
        readopen = (t.pipe x.pipe).readopen && x.writable;
        writeopen = (t.pipe x.pipe).writeopen && not x.writable;
      })
      × (t'.woken
          ≡ t.woken ++ ((if x.writable then nread_chan x.pipe else nwrite_chan x.pipe) ∷ []))
      × (t'.rest ≡ (
          if (t'.pipe x.pipe).readopen || (t'.pipe x.pipe).writeopen
          then t.rest
          else sv.kfree x.pipe t.rest))
  Behind fd_inode x t t' =
      let dropped = sv.iput x.ip (sv.begin_op t.rest) in
      let ended = sv.end_op dropped.0 in
      (t'.rest ≡ ended.0) × (t'.pipe ≡ t.pipe) × (t'.woken ≡ t.woken ++ (dropped.1 ++ ended.1))
  Behind fd_device x t t' =
      let dropped = sv.iput x.ip (sv.begin_op t.rest) in
      let ended = sv.end_op dropped.0 in
      (t'.rest ≡ ended.0) × (t'.pipe ≡ t.pipe) × (t'.woken ≡ t.woken ++ (dropped.1 ++ ended.1))

  pipe_Behind : (x : File) (t : Ftable M) → Behind fd_pipe x t (close_pipe sv x t)
  unfolding pipeclose
  pipe_Behind x t = elim (Bool-cases x.writable) [
    | inl w ↦ ((λ q ne. ground (arith, ne)), ground (arith, w), rw w refl, ground (arith, w))
    | inr w ↦ ((λ q ne. ground (arith, ne)), ground (arith, w), rw w refl, ground (arith, w))
  ]

  -- Whatever the table of files is meanwhile.
  pub last_close-Behind :
      (typ : FileType) (x : File) (t : Ftable M) (file : ℕ → File)
      → Behind typ x t (last_close sv typ x (record t { file = file }))
  unfolding last_close
  last_close-Behind fd_none x t file = (refl, refl, refl)
  last_close-Behind fd_pipe x t file = pipe_Behind x (record t { file = file })
  last_close-Behind fd_inode x t file = (refl, refl, refl)
  last_close-Behind fd_device x t file = (refl, refl, refl)
