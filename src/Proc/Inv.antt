-- ===== src/Proc/Inv.antt =====
-- The invariant of the two tables of kernel/proc.c.
pub mod Carry
pub mod Quiet
pub mod Add
use jklnkhbv.Base.{
  ℕ, zero, suc, ◌+◌, ◌≤◌, ◌<◌, ◌≡◌, ◌≢◌, refl, sym, ap, ◌∙◌, true, false, Option, none, some,
  update, ◌==◌, arith, if◌then◌else◌, subst,
}
use jklnkhbv.Proc.{Proc, Kernel, Namespace, is_unused, nproc, max_depth}
use jklnkhbv.Proc.Levels.{Spaces, at, IsRooted, level, depth-level}
use jklnkhbv.Proc.Levels.Stable.{
  Agree, Inhabited, IsRooted-Agree, Inhabited-Agree, level-Agree, level-used,
}

abbrev pub IsLive : Proc → Type 0
IsLive p = is_unused p.state ≡ false

-- A namespace that a process may live in: its chain of parents is in use, has at most `max_depth`
-- namespaces, and ends in the root.
pub record IsHome (spaces : Spaces) (root a : ℕ) : Type 0 where
  pub rooted : IsRooted spaces (spaces a).depth a
  pub shallow : (spaces a).depth < max_depth
  pub in_use : Inhabited spaces (spaces a).depth a
  pub grounded : level spaces (spaces a).depth a 0 ≡ root

pub Inhabited-self : (s : Spaces) (d a : ℕ) → Inhabited s d a → (s a).used ≡ true
Inhabited-self s zero a u = u
Inhabited-self s (suc d) a u = u.0

pub IsHome-Agree : (s t : Spaces) (root a : ℕ) → Agree s t → IsHome s root a → IsHome t root a
IsHome-Agree s t root a h v = record {
  rooted = subst (λ n. IsRooted t n a) (sym e) (IsRooted-Agree s t d a h v.in_use v.rooted);
  shallow = rw e v.shallow;
  in_use = subst (λ n. Inhabited t n a) (sym e) (Inhabited-Agree s t d a h v.in_use);
  grounded = ap (λ n. level t n a 0) e ∙ level-Agree s t d a 0 h v.in_use ∙ v.grounded;
}
  where
    d : ℕ
    d = (s a).depth

    e : (t a).depth ≡ (s a).depth
    e = (h a (Inhabited-self s (s a).depth a v.in_use)).2

module _ {M : Type 0} where
  abbrev pub home : Kernel M → ℕ → ℕ
  home k s = at (k.procs s).ns

  abbrev pub depth_of : Kernel M → ℕ → ℕ
  depth_of k s = (k.spaces (home k s)).depth

  -- The namespace at level `i` that the process in slot `s` belongs to.
  abbrev pub space_of : Kernel M → ℕ → ℕ → ℕ
  space_of k s i = level k.spaces (depth_of k s) (home k s) i

  abbrev pub root_of : Kernel M → ℕ
  root_of k = at k.initnamespace

  -- A free slot has no parent.
  abbrev pub Vacant : Kernel M → Type 0
  Vacant k = (s : ℕ) → s < nproc → is_unused (k.procs s).state ≡ true → (k.procs s).parent ≡ none

  pub record Inv (k : Kernel M) : Type 0 where
    -- A process has a namespace, in a tree under the root.
    pub placed : (s : ℕ) → s < nproc → IsLive (k.procs s) → (k.procs s).ns ≡ some (home k s)
    pub homes : (s : ℕ) → s < nproc → IsLive (k.procs s) → IsHome k.spaces (root_of k) (home k s)
    -- Its pids were handed out by its namespaces, and differ from those of the other processes.
    pub issued :
        (s i : ℕ)
        → s < nproc
        → IsLive (k.procs s)
        → i ≤ depth_of k s
        → (k.procs s).pids i < (k.spaces (space_of k s i)).next_ns_pid
    pub distinct :
        (s t i : ℕ)
        → s < nproc
        → t < nproc
        → s ≢ t
        → IsLive (k.procs s)
        → IsLive (k.procs t)
        → i ≤ depth_of k s
        → i ≤ depth_of k t
        → space_of k s i ≡ space_of k t i
        → (k.procs s).pids i ≢ (k.procs t).pids i
    -- The pid in the root namespace is the global one; in any other it is smaller.
    pub global : (s : ℕ) → s < nproc → IsLive (k.procs s) → (k.procs s).pid ≡ (k.procs s).pids 0
    pub smaller :
        (s i : ℕ)
        → s < nproc
        → IsLive (k.procs s)
        → i ≤ depth_of k s
        → 0 < i
        → (k.procs s).pids i < (k.procs s).pid
    pub root_next : (k.spaces (root_of k)).next_ns_pid ≡ k.nextpid
    pub inner_next :
        (a : ℕ) → (k.spaces a).used ≡ true → a ≢ root_of k → (k.spaces a).next_ns_pid < k.nextpid
    pub vacant : Vacant k
    pub started : 2 ≤ k.nextpid
    pub root_used : (k.spaces (root_of k)).used ≡ true
