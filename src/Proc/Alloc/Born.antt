-- ===== src/Proc/Alloc/Born.antt =====
-- What `allocproc` does: it runs to its end, and a slot that it returns holds a new process,
-- numbered in its namespace and in each one above.
use jklnkhbv.Base.{
  ℕ, ◌+◌, ◌≤◌, ◌<◌, ◌≡◌, ◌≢◌, refl, ap, ◌∙◌, true, Option, none, some, arith, if◌then◌else◌, subst,
  find_from, find_from-some, Option-cases, is_some, inl, inr,
}
use jklnkhbv.Proc.{Kernel, is_unused, nproc, used}
use jklnkhbv.Proc.Services.{Services}
use jklnkhbv.Proc.Namespaces.{take_pid}
use jklnkhbv.Proc.Levels.{Spaces, level}
use jklnkhbv.Proc.Levels.Numbering.{Numbered, number_levels_lem, on_path}
use jklnkhbv.Proc.Inv.{IsLive, IsHome, root_of, Inv}
use jklnkhbv.Proc.Alloc.{set_proc, claimed, equip, found, allocproc}
use jklnkhbv.Proc.Alloc.Keeps.{advanced, numbered_proc, numbered-Inv, pid-level, equip-Inv}

module _ {M : Type 0} where
  -- From `k` to `k'` a process of the namespace `ns` is born in slot `s`.
  pub record Claimed (k : Kernel M) (ns s : ℕ) (k' : Kernel M) : Type 0 where
    pub slot : s < nproc
    pub free : is_unused (k.procs s).state ≡ true
    pub in_use : (k'.procs s).state ≡ used
    pub ns_set : (k'.procs s).ns ≡ some ns
    pub numbered :
        (i : ℕ)
        → i ≤ (k.spaces ns).depth
        → (k'.procs s).pids i ≡ (k.spaces (level k.spaces (k.spaces ns).depth ns i)).next_ns_pid
    pub pid_set : (k'.procs s).pid ≡ k.nextpid
    pub others : (t : ℕ) → t ≢ s → k'.procs t ≡ k.procs t
    pub spaces :
        (b : ℕ)
        → k'.spaces b ≡ (
            if on_path k.spaces (k.spaces ns).depth ns b then take_pid (k.spaces b) else k.spaces b)
    pub initns : k'.initnamespace ≡ k.initnamespace
    pub nextpid : k'.nextpid ≡ k.nextpid + 1

  -- It also has a trapframe and a page table.
  pub record Born (k : Kernel M) (ns s : ℕ) (k' : Kernel M) : Type 0 where
    pub claim : Claimed k ns s k'
    pub open claim use *
    pub frame : is_some (k'.procs s).trapframe ≡ true
    pub table : is_some (k'.procs s).pagetable ≡ true

  abbrev pub Outcome : Kernel M → ℕ → Option ℕ × Kernel M → Type 0
  Outcome k ns r = Inv r.1 × ((s : ℕ) → r.0 ≡ some s → Born k ns s r.1)

module _ {M : Type 0} (sv : Services M) where
  record Equipped (k : Kernel M) (s t : ℕ) (k' : Kernel M) : Type 0 where
    same_slot : s ≡ t
    state : (k'.procs s).state ≡ (k.procs s).state
    ns : (k'.procs s).ns ≡ (k.procs s).ns
    pids : (k'.procs s).pids ≡ (k.procs s).pids
    pid : (k'.procs s).pid ≡ (k.procs s).pid
    others : (u : ℕ) → u ≢ s → k'.procs u ≡ k.procs u
    spaces : k'.spaces ≡ k.spaces
    initns : k'.initnamespace ≡ k.initnamespace
    nextpid : k'.nextpid ≡ k.nextpid
    frame : is_some (k'.procs s).trapframe ≡ true
    table : is_some (k'.procs s).pagetable ≡ true

  equip-Equipped :
      (k : Kernel M) (s t : ℕ) → (equip sv k s).0 ≡ some t → Equipped k s t (equip sv k s).1
  unfolding equip
  equip-Equipped k s t e = record {
    same_slot = ground arith;
    state = ground arith;
    ns = ground arith;
    pids = ground arith;
    pid = ground arith;
    others = λ u ne. ground arith;
    spaces = ground arith;
    initns = ground arith;
    nextpid = ground arith;
    frame = ground arith;
    table = ground arith;
  }

  Born-Equipped :
      (k k1 : Kernel M) (ns s t : ℕ) (k' : Kernel M)
      → Claimed k ns s k1
      → Equipped k1 s t k'
      → Born k ns t k'
  Born-Equipped k k1 ns s t k' b q =
      subst (λ u. Born k ns u k') q.same_slot
        (record {
          claim = record {
            slot = b.slot;
            free = b.free;
            in_use = q.state ∙ b.in_use;
            ns_set = q.ns ∙ b.ns_set;
            numbered = λ i le. ap (λ (f : ℕ → ℕ). f i) q.pids ∙ b.numbered i le;
            pid_set = q.pid ∙ b.pid_set;
            others = λ u ne. q.others u ne ∙ b.others u ne;
            spaces = λ a. ap (λ (f : Spaces). f a) q.spaces ∙ b.spaces a;
            initns = q.initns ∙ b.initns;
            nextpid = q.nextpid ∙ b.nextpid;
          };
          frame = q.frame;
          table = q.table;
        })

  module _ (k : Kernel M) (ns : ℕ) (v : Inv k) (at_home : IsHome k.spaces (root_of k) ns) (s : ℕ)
      (h : s < nproc) (free : is_unused (k.procs s).state ≡ true) where
    abbrev numbered_kernel :
        (r : (ℕ → ℕ) × Spaces)
        → Numbered k.spaces (k.spaces ns).depth ns (k.procs s).pids r
        → Kernel M
    numbered_kernel r n =
        set_proc (advanced k ns v at_home (k.procs s).pids r n) s
          (numbered_proc k ns v at_home (k.procs s).pids r n s)

    Numbered-Claimed :
        (r : (ℕ → ℕ) × Spaces) (n : Numbered k.spaces (k.spaces ns).depth ns (k.procs s).pids r)
        → Claimed k ns s (numbered_kernel r n)
    unfolding numbered_proc claimed
    Numbered-Claimed r n = record {
      slot = h;
      free = free;
      in_use = ground arith;
      ns_set = ground arith;
      numbered = λ i le. ground (arith, pid-level k ns v at_home (k.procs s).pids r n i le);
      pid_set = ground arith;
      others = λ t ne. ground arith;
      spaces = n.advanced;
      initns = refl;
      nextpid = refl;
    }

    found-Outcome : (r : Option ℕ × Kernel M) × (found sv k ns s ≡ some r) × Outcome k ns r
    unfolding found claimed numbered_proc
    found-Outcome =
        let (r, e, n) =
          number_levels_lem (k.spaces ns).depth ns (k.procs s).pids k.spaces at_home.rooted in
        let k1 = numbered_kernel r n in
        let live : IsLive (k1.procs s) = ground arith in
        (
          equip sv k1 s,
          rw e,
          (
            equip-Inv sv k1 s (numbered-Inv k ns v at_home (k.procs s).pids r n s) live,
            λ t et. Born-Equipped k k1 ns s t _ (Numbered-Claimed r n) (equip-Equipped k1 s t et),
          ),
        )

  -- From a state that satisfies `Inv` and for a namespace of its tree, `allocproc` comes to its end
  -- and keeps the invariant. A slot that it returns was free and is in use in that namespace, has
  -- the next pid of that namespace and of each one above it, which are advanced, and the next
  -- global pid, and has a trapframe and a page table; no other slot changes.
  pub allocproc-Outcome :
      (k : Kernel M) (ns : ℕ)
      → Inv k
      → IsHome k.spaces (root_of k) ns
      → (r : Option ℕ × Kernel M) × (allocproc sv k ns ≡ some r) × Outcome k ns r
  unfolding allocproc
  allocproc-Outcome k ns v at_home =
      elim (Option-cases (find_from (λ s. is_unused (k.procs s).state) nproc 0)) [
        | inl e ↦ ((none, k), rw (e, allocproc), (v, λ s es. cc))
        | inr (s, e) ↦
            let hit = find_from-some (λ s. is_unused (k.procs s).state) nproc 0 s e in
            let (r, er, o) = found-Outcome k ns v at_home s (omega arith) hit.0 in
            (r, rw (e, allocproc) er, o)
      ]
