-- ===== src/Proc.antt =====
-- The process table and the namespace table of kernel/proc.h, kernel/param.h and kernel/proc.c.
pub mod Services
pub mod Namespaces
pub mod Alloc
pub mod Sched
pub mod Fork
pub mod Exit
pub mod PsList
pub mod PsInfo
pub mod Boot
pub mod Levels
pub mod Inv
pub mod Reach
mod Examples
use jklnkhbv.Base.{ℕ, Bool, true, false, Option, List}

abbrev pub nproc : ℕ
nproc = 64

abbrev pub numns : ℕ
numns = 64

abbrev pub nofile : ℕ
nofile = 16

abbrev pub max_depth : ℕ
max_depth = 8

abbrev pub pgsize : ℕ
pgsize = 4096

pub data ProcState : Type 0 where
  unused used sleeping runnable running zombie : ProcState

abbrev pub is_unused : ProcState → Bool
is_unused unused = true
is_unused _ = false

abbrev pub is_sleeping : ProcState → Bool
is_sleeping sleeping = true
is_sleeping _ = false

abbrev pub is_runnable : ProcState → Bool
is_runnable runnable = true
is_runnable _ = false

abbrev pub is_zombie : ProcState → Bool
is_zombie zombie = true
is_zombie _ = false

-- A pointer to a namespace or to a process is its index in the table, and `none` is the null
-- pointer.
pub record Namespace : Type 0 where
  pub parent : Option ℕ
  pub head : Option ℕ
  pub ns_id : ℕ
  pub depth : ℕ
  pub used : Bool
  pub next_ns_pid : ℕ
  pub num_proc : ℕ

-- The trapframe page: its address, the words that the process code sets, and the other ones.
pub record Trapframe : Type 0 where
  pub page : ℕ
  pub epc : ℕ
  pub sp : ℕ
  pub a0 : ℕ
  pub regs : ℕ → ℕ

-- Saved registers of a kernel context switch.
pub record Context : Type 0 where
  pub ra : ℕ
  pub sp : ℕ
  pub saved : ℕ → ℕ

-- What a sleeping process waits on: the address of a kernel object, given by a number for each
-- kind of object and the object's index.
pub record Chan : Type 0 where
  pub kind : ℕ
  pub index : ℕ

-- `char name[16]` is the list of the characters before the terminating zero.
pub record Proc : Type 0 where
  pub state : ProcState
  pub chan : Option Chan
  pub killed : Bool
  pub xstate : ℕ
  pub pid : ℕ
  pub parent : Option ℕ
  pub kstack : ℕ
  pub sz : ℕ
  pub pagetable : Option ℕ
  pub trapframe : Option Trapframe
  pub context : Context
  pub ofile : ℕ → Option ℕ
  pub cwd : Option ℕ
  pub name : List ℕ
  pub init_ticks : ℕ
  pub run_time : ℕ
  pub last_run_start : ℕ
  pub last_runnable : ℕ
  pub context_switches : ℕ
  pub kernel_time : ℕ
  pub last_kernel_time : ℕ
  pub waiting_time : ℕ
  pub is_kernel : Bool
  pub read_b : ℕ
  pub write_b : ℕ
  pub heap_pages : ℕ
  pub ns : Option ℕ
  pub pids : ℕ → ℕ

-- The globals of proc.c. `rest` is the state of the other parts of the kernel.
pub record Kernel (M : Type 0) : Type 0 where
  pub procs : ℕ → Proc
  pub spaces : ℕ → Namespace
  pub nextpid : ℕ
  pub nextnamespace : ℕ
  pub initproc : Option ℕ
  pub initnamespace : Option ℕ
  pub ticks : ℕ
  pub rest : M
