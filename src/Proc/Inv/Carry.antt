-- ===== src/Proc/Inv/Carry.antt =====
-- Steps that create no process keep the invariant: those that carry the processes over, or free
-- slots, and let the counters of the namespaces grow.
use jklnkhbv.Base.{ℕ, ◌≤◌, ◌<◌, ◌≡◌, ◌≢◌, sym, ap, ◌∙◌, true, some, arith, subst}
use jklnkhbv.Proc.{Proc, Kernel, Namespace, nproc}
use jklnkhbv.Proc.Levels.{at, level}
use jklnkhbv.Proc.Levels.Stable.{Agree, level-Agree, level-used}
use jklnkhbv.Proc.Inv.{
  IsLive, IsHome, IsHome-Agree, Inhabited-self, home, depth_of, space_of, root_of, Vacant, Inv,
}

-- The same process, as far as the invariant goes.
pub record SameProcess (p q : Proc) : Type 0 where
  pub live : IsLive p
  pub ns : q.ns ≡ p.ns
  pub pids : q.pids ≡ p.pids
  pub pid : q.pid ≡ p.pid

module _ {M : Type 0} where
  pub record Carries (k k' : Kernel M) : Type 0 where
    pub slots : (s : ℕ) → s < nproc → IsLive (k'.procs s) → SameProcess (k.procs s) (k'.procs s)
    pub agree : Agree k.spaces k'.spaces
    pub grows :
        (a : ℕ) → (k.spaces a).used ≡ true → (k.spaces a).next_ns_pid ≤ (k'.spaces a).next_ns_pid
    pub root : k'.initnamespace ≡ k.initnamespace
    pub root_next : (k'.spaces (root_of k)).next_ns_pid ≡ k'.nextpid
    pub inner_next :
        (a : ℕ) → (k'.spaces a).used ≡ true → a ≢ root_of k → (k'.spaces a).next_ns_pid < k'.nextpid
    pub nextpid : k.nextpid ≤ k'.nextpid
    pub vacant : Vacant k'

  module _ {k k' : Kernel M} (v : Inv k) (c : Carries k k') (s : ℕ) (h : s < nproc)
      (l : IsLive (k'.procs s)) where
    old : SameProcess (k.procs s) (k'.procs s)
    old = c.slots s h l

    home_kept : home k' s ≡ home k s
    home_kept = ap at old.ns

    old_home : IsHome k.spaces (root_of k) (home k s)
    old_home = v.homes s h old.live

    pub depth_kept : depth_of k' s ≡ depth_of k s
    depth_kept =
        ap (λ a. (k'.spaces a).depth) home_kept
        ∙ (c.agree (home k s) (Inhabited-self k.spaces (depth_of k s) (home k s) old_home.in_use)).2

    pub space_kept : (i : ℕ) → space_of k' s i ≡ space_of k s i
    space_kept i =
        (λ j. level k'.spaces (depth_kept j) (home_kept j) i)
        ∙ level-Agree k.spaces k'.spaces (depth_of k s) (home k s) i c.agree old_home.in_use

    home_carried : IsHome k'.spaces (root_of k') (home k' s)
    home_carried =
        subst (λ a. IsHome k'.spaces (root_of k') a) (sym home_kept)
          (subst (λ r. IsHome k'.spaces r (home k s)) (sym (ap at c.root))
            (IsHome-Agree k.spaces k'.spaces (root_of k) (home k s) c.agree old_home))

    issued_carried :
        (i : ℕ)
        → i ≤ depth_of k' s
        → (k'.procs s).pids i < (k'.spaces (space_of k' s i)).next_ns_pid
    issued_carried i le = omega (
      arith,
      v.issued s i h old.live (omega (arith, depth_kept)),
      c.grows (space_of k s i) (level-used k.spaces (depth_of k s) (home k s) i old_home.in_use),
      ap (λ a. (k'.spaces a).next_ns_pid) (space_kept i),
      ap (λ (f : ℕ → ℕ). f i) old.pids,
    )

    smaller_carried : (i : ℕ) → i ≤ depth_of k' s → 0 < i → (k'.procs s).pids i < (k'.procs s).pid
    smaller_carried i le pos = omega (
      arith,
      v.smaller s i h old.live (omega (arith, depth_kept)) pos,
      ap (λ (f : ℕ → ℕ). f i) old.pids,
      old.pid,
    )

  pub Inv-carry : {k k' : Kernel M} → Inv k → Carries k k' → Inv k'
  Inv-carry {k} {k'} v c = record {
    placed =
        λ s h l. let o = c.slots s h l in o.ns ∙ v.placed s h o.live ∙ ap some (sym (ap at o.ns));
    homes = home_carried v c;
    issued = λ s i h l. issued_carried v c s h l i;
    distinct = λ s t i hs ht ne ls lt le_s le_t e clash.
        let os = c.slots s hs ls in
        let ot = c.slots t ht lt in
        v.distinct s t i hs ht ne os.live ot.live (omega (arith, depth_kept v c s hs ls))
          (omega (arith, depth_kept v c t ht lt))
          (sym (space_kept v c s hs ls i) ∙ e ∙ space_kept v c t ht lt i)
          (sym (ap (λ (f : ℕ → ℕ). f i) os.pids) ∙ clash ∙ ap (λ (f : ℕ → ℕ). f i) ot.pids);
    global = λ s h l.
        let o = c.slots s h l in o.pid ∙ v.global s h o.live ∙ sym (ap (λ (f : ℕ → ℕ). f 0) o.pids);
    smaller = λ s i h l. smaller_carried v c s h l i;
    root_next = ap (λ r. (k'.spaces (at r)).next_ns_pid) c.root ∙ c.root_next;
    inner_next = λ a u ne. c.inner_next a u (λ e. ne (e ∙ sym (ap at c.root)));
    vacant = c.vacant;
    started = omega (arith, v.started, c.nextpid);
    root_used = ap (λ r. (k'.spaces (at r)).used) c.root ∙ (c.agree (root_of k) v.root_used).0;
  }

-- Nothing of a namespace changes but its head and its count of processes.
abbrev pub SameSpace : Namespace → Namespace → Type 0
SameSpace n m =
    (m.parent ≡ n.parent)
    × (m.depth ≡ n.depth)
    × (m.used ≡ n.used)
    × (m.next_ns_pid ≡ n.next_ns_pid)

module _ {M : Type 0} where
  -- A step that leaves the counters alone.
  pub Inv-slots :
      {k k' : Kernel M}
      → Inv k
      → ((a : ℕ) → SameSpace (k.spaces a) (k'.spaces a))
      → k'.nextpid ≡ k.nextpid
      → k'.initnamespace ≡ k.initnamespace
      → ((s : ℕ) → s < nproc → IsLive (k'.procs s) → SameProcess (k.procs s) (k'.procs s))
      → Vacant k'
      → Inv k'
  Inv-slots {k} {k'} v same next root slots vacant = Inv-carry v (record {
    slots = slots;
    vacant = vacant;
    agree = λ b u. let e = same b in (e.2 ∙ u, e.0, e.1);
    grows = λ a u. omega (arith, (same a).3);
    root = root;
    root_next = (same (root_of k)).3 ∙ v.root_next ∙ sym next;
    inner_next = λ a u ne. omega (arith, v.inner_next a (sym (same a).2 ∙ u) ne, (same a).3);
    nextpid = omega arith;
  })
