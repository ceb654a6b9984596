-- ===== src/Pipe/Examples.antt =====
-- The theorems about kernel/pipe.c at an empty pipe and at one that holds a byte.
use jklnkhbv.Base.{ℕ, ◌+◌, refl, true, false, Option, none, some, List, [], arith}
use jklnkhbv.Proc.Services.{Services}
use jklnkhbv.Pipe.{Pipe, pipewrite, piperead, put}
use jklnkhbv.Pipe.Ring.{IsPipe, put_lem}
use jklnkhbv.Pipe.Transfer.{Written, pipewrite_lem}
use jklnkhbv.Pipe.Reading.{ReadOutcome, piperead_lem}

abbrev kernel : Services ℕ
kernel = record {
  kalloc = λ m. (none, m);
  kfree = λ page m. m;
  proc_pagetable = λ page m. (none, m);
  proc_freepagetable = λ table sz m. m;
  uvmcopy = λ from to sz m. (true, m);
  copyout = λ table addr bytes m. (true, m + 1);
  filedup = λ f m. m;
  idup = λ i m. m;
  begin_op = λ m. m;
  fileclose = λ f m. (m, []);
  iput = λ i m. (m, []);
  end_op = λ m. (m, []);
  forkret = 0;
}

abbrev empty_pipe : Pipe
empty_pipe = record {
  cells = λ i. 5;
  nread = 0xffff_ffff;
  nwrite = 0xffff_ffff;
  readopen = true;
  writeopen = true;
}

empty_pipe-IsPipe : IsPipe empty_pipe
empty_pipe-IsPipe = record {
  read_word = omega arith;
  write_word = omega arith;
  bounded = omega arith;
}

abbrev user_bytes : ℕ → Option ℕ
user_bytes a = some 65

pipewrite_lem_example :
    (bs : List ℕ) × Written user_bytes false 4096 3 0 empty_pipe bs
      (pipewrite user_bytes false 4096 3 0 empty_pipe)
pipewrite_lem_example = pipewrite_lem user_bytes false 4096 3 0 empty_pipe empty_pipe-IsPipe

piperead_lem_example :
    ReadOutcome kernel 1 false 4096 3
      (put 65 empty_pipe)
      0
      (piperead kernel 1 false 4096 3 (put 65 empty_pipe) 0)
piperead_lem_example =
    piperead_lem kernel 1 false 4096 3 (put 65 empty_pipe) 0
      (put_lem empty_pipe empty_pipe-IsPipe 65 refl).0
