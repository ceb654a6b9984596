-- ===== src/Proc/Services.antt =====
-- What kernel/proc.c calls in the other files of the kernel, over their state `M`: the page
-- allocator (kernel/kalloc.c), page tables and copies to user memory (kernel/vm.c), open files
-- (kernel/file.c) and inodes (kernel/fs.c, kernel/log.c). Nothing is assumed of the operations.
use jklnkhbv.Base.{ℕ, Bool, Option, List}
use jklnkhbv.Proc.{Chan}

pub record Services (M : Type 0) : Type 0 where
  pub kalloc : M → Option ℕ × M
  pub kfree : ℕ → M → M
  -- `proc_pagetable`, given the address of the trapframe page.
  pub proc_pagetable : ℕ → M → Option ℕ × M
  pub proc_freepagetable : ℕ → ℕ → M → M
  -- These two tell whether they succeeded.
  pub uvmcopy : ℕ → ℕ → ℕ → M → Bool × M
  pub copyout : ℕ → ℕ → List ℕ → M → Bool × M
  pub filedup : ℕ → M → M
  pub idup : ℕ → M → M
  pub begin_op : M → M
  -- These three also wake the sleepers on some channels.
  pub fileclose : ℕ → M → M × List Chan
  pub iput : ℕ → M → M × List Chan
  pub end_op : M → M × List Chan
  -- The address of `forkret`.
  pub forkret : ℕ
