-- ===== src/Files/Examples.antt =====
-- Tests of the open files, and concrete inputs for their theorems.
use jklnkhbv.Base.{
  ℕ, ◌+◌, ◌-◌, ◌≡◌, refl, true, Option, none, some, [], pos, ltb, find_from, ◌==◌, arith,
  if◌then◌else◌,
}
use jklnkhbv.Proc.Services.{Services}
use jklnkhbv.Proc.Fork.{Code, err, val}
use jklnkhbv.Pipe.{new_pipe, pipeclose}
use jklnkhbv.Files.{
  File, fd_none, fd_device, fd_inode, Ftable, filealloc, filedup, fileclose, fdalloc, argfd,
  last_close, sys_dup, dup_file, dup_to, sys_close, close_file, ends, with_page, with_second,
  with_first, pipealloc, copy_fds, with_fd1, with_fd0, with_pipe, sys_pipe,
}
use jklnkhbv.Files.Counted.{count, Counted}
use jklnkhbv.Files.Calls.{HasRoom, DupOutcome, ShutOutcome, sys_dup_lem, sys_close_lem}
use jklnkhbv.Files.SysPipe.{PipeCall, sys_pipe_lem}

-- The state is how many pages are free. The user's memory ends at address 100.
abbrev pages : Services ℕ
pages = record {
  kalloc = λ m. if m == 0 then (none, 0) else (some (4096 + m), m - 1);
  kfree = λ page m. m + 1;
  proc_pagetable = λ page m. (none, m);
  proc_freepagetable = λ table sz m. m;
  uvmcopy = λ from to sz m. (true, m);
  copyout = λ table addr bytes m. (ltb addr 100, m);
  filedup = λ f m. m;
  idup = λ i m. m;
  begin_op = λ m. m;
  fileclose = λ f m. (m, []);
  iput = λ i m. (m, []);
  end_op = λ m. (m, []);
  forkret = 0;
}

-- File 0 is the console, file 1 is on the disk, and the others are free.
abbrev file : ℕ → File
file f = record {
  typ = if f == 0 then fd_device else if f == 1 then fd_inode else fd_none;
  ref = if f == 0 then 5 else if f == 1 then 1 else 0;
  readable = true;
  writable = true;
  pipe = 0;
  ip = 7;
  off = 0;
  major = 1;
}

abbrev opened : Ftable ℕ
opened = record { file = file; pipe = λ page. new_pipe (λ i. 0); rest = 3; woken = [] }

-- The caller has the console as 0, 1 and 2 and the file on the disk as 3.
abbrev fds : ℕ → Option ℕ
fds fd = if ltb fd 3 then some 0 else if fd == 3 then some 1 else none

-- Two other descriptors hold the console.
abbrev elsewhere : ℕ → ℕ
elsewhere f = if f == 0 then 2 else 0

fds-HasRoom : HasRoom elsewhere
fds-HasRoom = λ f lt. ground arith

fds-Counted : Counted fds elsewhere opened
unfolding count
fds-Counted = record {
  refs = λ f lt. ground arith;
  real = λ fd f lt e. ground (arith, e);
  idle = λ f lt z. ground (arith, z);
}

abbrev code_of : Option (Code × (ℕ → Option ℕ) × Ftable ℕ) → Option (Code × ℕ × ℕ)
code_of none = none
code_of (some (code, ofile, t)) = some (code, t.rest, (t.file 1).ref)

dup_disk : code_of (sys_dup pages (pos 3) fds opened) ≡ some (val 4, 3, 2)
unfolding sys_dup dup_file dup_to argfd fdalloc filedup find_from
dup_disk = refl

close_disk : code_of (sys_close pages (pos 3) fds opened) ≡ some (val 0, 3, 0)
unfolding sys_close close_file argfd fileclose last_close
close_disk = refl

pipe_made : code_of (sys_pipe pages 9 40 fds opened) ≡ some (val 0, 2, 1)
unfolding sys_pipe pipealloc with_first with_second with_page with_pipe with_fd0 with_fd1 copy_fds
    ends fdalloc filealloc find_from
pipe_made = refl

-- The second descriptor cannot be copied out, and the page is free again.
pipe_undone : code_of (sys_pipe pages 9 96 fds opened) ≡ some (err, 3, 1)
unfolding sys_pipe pipealloc with_first with_second with_page with_pipe with_fd0 with_fd1 copy_fds
    ends fdalloc filealloc find_from fileclose last_close pipeclose new_pipe
pipe_undone = refl

sys_dup_lem_example :
    (r : Code × (ℕ → Option ℕ) × Ftable ℕ) × (sys_dup pages (pos 3) fds opened ≡ some r)
    × Counted r.1 elsewhere r.2
    × DupOutcome pages (pos 3) fds elsewhere opened fds-HasRoom fds-Counted r
sys_dup_lem_example = sys_dup_lem pages (pos 3) fds elsewhere opened fds-HasRoom fds-Counted

sys_close_lem_example :
    (r : Code × (ℕ → Option ℕ) × Ftable ℕ) × (sys_close pages (pos 3) fds opened ≡ some r)
    × Counted r.1 elsewhere r.2
    × ShutOutcome pages (pos 3) fds elsewhere opened fds-HasRoom fds-Counted r
sys_close_lem_example = sys_close_lem pages (pos 3) fds elsewhere opened fds-HasRoom fds-Counted

sys_pipe_lem_example :
    (r : Code × (ℕ → Option ℕ) × Ftable ℕ) × (sys_pipe pages 9 40 fds opened ≡ some r)
    × Counted r.1 elsewhere r.2
    × PipeCall pages 9 40 fds elsewhere opened fds-HasRoom fds-Counted r
sys_pipe_lem_example = sys_pipe_lem pages 9 40 fds elsewhere opened fds-HasRoom fds-Counted
