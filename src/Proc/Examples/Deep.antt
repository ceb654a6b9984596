-- ===== src/Proc/Examples/Deep.antt =====
-- A state whose first process lives in the last of eight nested namespaces, for the limits of
-- `clone` of kernel/proc.c.
use jklnkhbv.Base.{
  ℕ, zero, suc, ◌<◌, ◌≤◌, ◌≡◌, refl, sym, subst, Option, none, some, ltb, ◌==◌, arith,
  if◌then◌else◌, not, find_from,
}
use jklnkhbv.Proc.{Kernel, Proc, Namespace, running, numns}
use jklnkhbv.Proc.Boot.{zero_proc}
use jklnkhbv.Proc.Alloc.{junk_trapframe}
use jklnkhbv.Proc.Levels.{IsRooted, level, depth-level}
use jklnkhbv.Proc.Levels.Stable.{Inhabited}
use jklnkhbv.Proc.Inv.{Inv, IsLive, IsHome, home, depth_of, space_of}
use jklnkhbv.Proc.Fork.Keeps.{Runs}

abbrev outer_of : ℕ → Option ℕ
outer_of zero = none
outer_of (suc a) = some a

abbrev deep_space : ℕ → Namespace
deep_space a = record {
  parent = outer_of a;
  head = none;
  ns_id = 0;
  depth = a;
  used = ltb a 8;
  next_ns_pid = if a == 0 then 2 else 1;
  num_proc = 1;
}

abbrev deep_proc : Proc
deep_proc = record zero_proc {
  state = running;
  ns = some 7;
  pid = 1;
  pids = λ i. if i == 0 then 1 else 0;
  pagetable = some 2;
  trapframe = some (junk_trapframe 1);
  cwd = some 1;
}

abbrev pub deep : Kernel ℕ
deep = record {
  procs = λ s. if s == 0 then deep_proc else zero_proc;
  spaces = deep_space;
  nextpid = 2;
  nextnamespace = 9;
  initproc = some 0;
  initnamespace = some 0;
  ticks = 0;
  rest = 3;
}

pub deep-Runs : Runs deep 0
deep-Runs = record { slot = omega arith; live = refl; table = refl; frame = refl; cwd = refl }

only_first : (s : ℕ) → IsLive (deep.procs s) → s ≡ 0
only_first s l = ground arith

deep-IsRooted : (d : ℕ) → IsRooted deep.spaces d d
deep-IsRooted zero = (refl, refl)
deep-IsRooted (suc d) = (refl, refl, deep-IsRooted d)

deep-Inhabited : (d : ℕ) → d ≤ 7 → Inhabited deep.spaces d d
deep-Inhabited zero h = refl
deep-Inhabited (suc d) h = (ground arith, deep-Inhabited d (omega arith))

deep-IsHome : IsHome deep.spaces 0 7
unfolding level
deep-IsHome = record {
  rooted = deep-IsRooted 7;
  shallow = omega arith;
  in_use = deep-Inhabited 7 (omega arith);
  grounded = refl;
}

deep-level : (i : ℕ) → i ≤ 7 → level deep.spaces 7 7 i ≡ i
deep-level i h = depth-level deep.spaces 7 7 i deep-IsHome.rooted h

issued_first :
    (i : ℕ) → i ≤ 7 → deep_proc.pids i < (deep_space (level deep.spaces 7 7 i)).next_ns_pid
issued_first i h =
    subst (λ a. deep_proc.pids i < (deep_space a).next_ns_pid) (sym (deep-level i h)) (ground arith)

pub deep-Inv : Inv deep
deep-Inv = record {
  placed = λ s h l. subst (λ t. (deep.procs t).ns ≡ some (home deep t)) (sym (only_first s l)) refl;
  homes =
      λ s h l. subst (λ t. IsHome deep.spaces 0 (home deep t)) (sym (only_first s l)) deep-IsHome;
  issued = λ s i h l le.
      subst
        (λ t.
          i ≤ depth_of deep t
          → (deep.procs t).pids i < (deep.spaces (space_of deep t i)).next_ns_pid)
        (sym (only_first s l)) (issued_first i) le;
  distinct = λ s t i hs ht ne ls lt le_s le_t e.
      absurd (omega (arith, ne, only_first s ls, only_first t lt));
  global =
      λ s h l. subst (λ t. (deep.procs t).pid ≡ (deep.procs t).pids 0) (sym (only_first s l)) refl;
  smaller = λ s i h l le lt. ground (arith, only_first s l);
  root_next = refl;
  inner_next = λ a u ne. ground arith;
  vacant = λ s h u. ground arith;
  started = omega arith;
  root_used = refl;
}

pub deep_free : find_from (λ a. not (deep.spaces a).used) numns 0 ≡ some 8
unfolding find_from
deep_free = refl
