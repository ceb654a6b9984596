-- ===== src/Proc/Boot/Started.antt =====
-- `userinit` on the tables of `procinit` and `namespaceinit` establishes the invariant.
use jklnkhbv.Base.{
  ℕ, ◌≤◌, ◌<◌, ◌≡◌, sym, ap, ◌∙◌, true, none, some, arith, is_some, is_some→some, find_from, subst,
}
use jklnkhbv.Proc.{Kernel}
use jklnkhbv.Proc.Services.{Services}
use jklnkhbv.Proc.Namespaces.{allocnamespace, number_levels}
use jklnkhbv.Proc.Levels.{level, at, IsRooted}
use jklnkhbv.Proc.Levels.Stable.{Inhabited}
use jklnkhbv.Proc.Inv.{IsLive, IsHome, home, depth_of, space_of, root_of, Inv}
use jklnkhbv.Proc.Alloc.{allocproc, found, equip, claimed}
use jklnkhbv.Proc.Boot.{First, procinit, namespaceinit, booted, load_first, userinit}

module _ {M : Type 0} (sv : Services M) (fs : First M) (m : M) where
  -- The first process gets its two pages.
  abbrev pub HasMemory : Type 0
  HasMemory =
      (page table : ℕ) × (m1 m2 : M) × (sv.kalloc m ≡ (some page, m1))
      × (sv.proc_pagetable page m1 ≡ (some table, m2))

  userinit_total : HasMemory → is_some (userinit sv fs (booted m)) ≡ true
  unfolding userinit booted allocnamespace allocproc found number_levels equip claimed load_first
      find_from
  userinit_total h = ground (arith, h.4, h.5)

  -- What the tables hold then.
  record Started (k : Kernel M) : Type 0 where
    only_first : (s : ℕ) → IsLive (k.procs s) → s ≡ 0
    vacant : (s : ℕ) → (k.procs s).parent ≡ none
    ns : (k.procs 0).ns ≡ some 0
    pids : (k.procs 0).pids 0 ≡ 1
    pid : (k.procs 0).pid ≡ 1
    depth : (k.spaces 0).depth ≡ 0
    parent : (k.spaces 0).parent ≡ none
    used : (k.spaces 0).used ≡ true
    next : (k.spaces 0).next_ns_pid ≡ 2
    only_root : (a : ℕ) → (k.spaces a).used ≡ true → a ≡ 0
    nextpid : k.nextpid ≡ 2
    initns : k.initnamespace ≡ some 0

  userinit-Started : HasMemory → (k : Kernel M) → userinit sv fs (booted m) ≡ some k → Started k
  unfolding userinit booted procinit namespaceinit allocnamespace allocproc found number_levels
      equip claimed load_first find_from
  userinit-Started h k e = record {
    only_first = λ s l. ground (arith, h.4, h.5);
    vacant = λ s. ground (arith, h.4, h.5);
    ns = ground (arith, h.4, h.5);
    pids = ground (arith, h.4, h.5);
    pid = ground (arith, h.4, h.5);
    depth = ground (arith, h.4, h.5);
    parent = ground (arith, h.4, h.5);
    used = ground (arith, h.4, h.5);
    next = ground (arith, h.4, h.5);
    only_root = λ a u. ground (arith, h.4, h.5);
    nextpid = ground (arith, h.4, h.5);
    initns = ground (arith, h.4, h.5);
  }

  module _ (k : Kernel M) (st : Started k) where
    at_root : (s : ℕ) → IsLive (k.procs s) → home k s ≡ 0
    at_root s l = ap (λ t. at (k.procs t).ns) (st.only_first s l) ∙ ap at st.ns

    root_depth : (s : ℕ) → IsLive (k.procs s) → depth_of k s ≡ 0
    root_depth s l = ap (λ a. (k.spaces a).depth) (at_root s l) ∙ st.depth

    root-IsHome : IsHome k.spaces (root_of k) 0
    unfolding level
    root-IsHome = record {
      rooted = subst (λ d. IsRooted k.spaces d 0) (sym st.depth) (st.depth, st.parent);
      shallow = omega (arith, st.depth);
      in_use = subst (λ d. Inhabited k.spaces d 0) (sym st.depth) st.used;
      grounded = ap (λ d. level k.spaces d 0 0) st.depth ∙ sym (ap at st.initns);
    }

    root_space : (s i : ℕ) → IsLive (k.procs s) → space_of k s i ≡ 0
    unfolding level
    root_space s i l = (λ j. level k.spaces (root_depth s l j) (at_root s l j) i)

    issued_first :
        (s i : ℕ)
        → IsLive (k.procs s)
        → i ≤ depth_of k s
        → (k.procs s).pids i < (k.spaces (space_of k s i)).next_ns_pid
    issued_first s i l le =
        let zero_level : i ≡ 0 = omega (arith, root_depth s l) in
        omega (
          arith,
          ap (λ t. (k.procs t).pids i) (st.only_first s l),
          ap (k.procs 0).pids zero_level,
          st.pids,
          ap (λ a. (k.spaces a).next_ns_pid) (root_space s i l),
          st.next,
        )

  Started-Inv : (k : Kernel M) → Started k → Inv k
  Started-Inv k st = record {
    placed = λ s h l. ground (arith, st.only_first s l, st.ns);
    homes = λ s h l.
        subst (λ a. IsHome k.spaces (root_of k) a) (sym (at_root k st s l)) (root-IsHome k st);
    issued = λ s i h l le. issued_first k st s i l le;
    distinct = λ s t i hs ht ne ls lt le_s le_t e.
        absurd (omega (arith, ne, st.only_first s ls, st.only_first t lt));
    global = λ s h l. ground (arith, st.only_first s l, st.pid, st.pids);
    smaller = λ s i h l le pos. absurd (omega (arith, root_depth k st s l));
    root_next = ground (arith, st.initns, st.next, st.nextpid);
    inner_next = λ a u ne. absurd (ne (ground (arith, st.only_root a u, st.initns)));
    vacant = λ s h l. st.vacant s;
    started = omega (arith, st.nextpid);
    root_used = ground (arith, st.initns, st.used);
  }

  -- Where the first process gets its pages, `userinit` comes to its end, and the invariant holds.
  pub userinit_lem : HasMemory → (k : Kernel M) × (userinit sv fs (booted m) ≡ some k) × Inv k
  userinit_lem h =
      let (k, e) = is_some→some (userinit sv fs (booted m)) (userinit_total h) in
      (k, e, Started-Inv k (userinit-Started h k e))
