-- ===== src/Proc/Examples/Report.antt =====
-- `ps_info` of the first process, over a memory of bytes.
use jklnkhbv.Base.{ℕ, ◌≡◌, refl, true, none, some, List, [], ◌∷◌, update, ◌==◌, if◌then◌else◌, ltb}
use jklnkhbv.Proc.{Kernel, Proc, running}
use jklnkhbv.Proc.Services.{Services}
use jklnkhbv.Proc.Boot.{booted}
use jklnkhbv.Proc.PsInfo.{count_files}
use jklnkhbv.Proc.PsInfo.Layout.{Bytes, write}

abbrev recorder : Services Bytes
recorder = record {
  kalloc = λ m. (none, m);
  kfree = λ page m. m;
  proc_pagetable = λ page m. (none, m);
  proc_freepagetable = λ table sz m. m;
  uvmcopy = λ from to sz m. (true, m);
  copyout = λ table addr bytes m. (true, write addr bytes m);
  filedup = λ f m. m;
  idup = λ i m. m;
  begin_op = λ m. m;
  fileclose = λ f m. (m, []);
  iput = λ i m. (m, []);
  end_op = λ m. (m, []);
  forkret = 0;
}

abbrev zeros : List ℕ → List ℕ
zeros s = 0 ∷ 0 ∷ 0 ∷ 0 ∷ 0 ∷ 0 ∷ 0 ∷ 0 ∷ 0 ∷ 0 ∷ 0 ∷ 0 ∷ []

abbrev empty : Kernel Bytes
empty = booted (λ a. 0)

abbrev shell : Proc
shell = record (empty.procs 0) {
  state = running;
  pid = 1;
  ns = some 0;
  pagetable = some 9;
  name = 115 ∷ 104 ∷ [];
}

abbrev running_shell : Kernel Bytes
running_shell = record empty { procs = update empty.procs 0 shell }

three_files :
    count_files 16 0 (λ i. if i == 1 then none else if ltb i 4 then some i else none) 0 ≡ 3
unfolding count_files
three_files = refl
