-- ===== src/Proc/Alloc/Keeps.antt =====
-- `freeproc` and `allocproc` keep the invariant, and `allocproc` uses no null pointer.
use jklnkhbv.Base.{ℕ, ◌+◌, ◌≤◌, ◌<◌, ◌≡◌, ◌≢◌, refl, sym, ap, ◌∙◌, true, arith}
use jklnkhbv.Proc.{Proc, Kernel, Namespace, nproc}
use jklnkhbv.Proc.Services.{Services}
use jklnkhbv.Proc.Levels.{Spaces, level, depth-level}
use jklnkhbv.Proc.Levels.Numbering.{Numbered, on_path, on_path-level}
use jklnkhbv.Proc.Inv.{
  IsLive, IsHome, IsHome-Agree, Inhabited-self, depth_of, space_of, root_of, Inv,
}
use jklnkhbv.Proc.Levels.Stable.{level-Agree, level-used}
use jklnkhbv.Proc.Inv.Carry.{Carries, Inv-carry, depth_kept, space_kept, SameSpace, Inv-slots}
use jklnkhbv.Proc.Inv.Add.{Fits, Inv-add}
use jklnkhbv.Proc.Alloc.{set_proc, freeproc, cleared, claimed, equip}

pub SameSpace-refl : (n : Namespace) → SameSpace n n
SameSpace-refl n = (refl, refl, refl, refl)

module _ {M : Type 0} (sv : Services M) where
  pub freeproc-Inv : (k : Kernel M) (s : ℕ) → Inv k → Inv (freeproc sv k s)
  unfolding freeproc cleared
  freeproc-Inv k s v =
      Inv-slots v (λ a. SameSpace-refl (k.spaces a)) refl refl
        (λ t h l. record {
          live = ground arith;
          ns = ground arith;
          pids = ground arith;
          pid = ground arith;
        })
        (λ t h u. ground (arith, v.vacant t h))

  pub equip-Inv : (k : Kernel M) (s : ℕ) → Inv k → IsLive (k.procs s) → Inv (equip sv k s).1
  unfolding equip cleared
  equip-Inv k s v l =
      Inv-slots v (λ a. (ground arith, ground arith, ground arith, ground arith)) (ground arith)
        (ground arith)
        (λ t h lt. record {
          live = ground arith;
          ns = ground arith;
          pids = ground arith;
          pid = ground arith;
        })
        (λ t h u. ground (arith, v.vacant t h))

module _ {M : Type 0} (k : Kernel M) (ns : ℕ) (v : Inv k) (at_home : IsHome k.spaces (root_of k) ns)
    (pids : ℕ → ℕ) (r : (ℕ → ℕ) × Spaces)
    (n : Numbered k.spaces (k.spaces ns).depth ns pids r) where
  abbrev pub advanced : Kernel M
  advanced = record k { nextpid = k.nextpid + 1; spaces = r.1 }

  pub root_on_path : on_path k.spaces (k.spaces ns).depth ns (root_of k) ≡ true
  root_on_path =
      let e : (k.spaces (root_of k)).depth ≡ 0 =
        ap (λ a. (k.spaces a).depth) (sym at_home.grounded)
        ∙ depth-level k.spaces (k.spaces ns).depth ns 0 at_home.rooted (omega arith) in
      ground (arith, e, at_home.grounded)

  pub advanced-Carries : Carries k advanced
  advanced-Carries = record {
    slots = λ s h l. record { live = l; ns = refl; pids = refl; pid = refl };
    agree = λ b u. ground (arith, n.advanced b);
    grows = λ a u. ground (arith, n.advanced a);
    root = refl;
    root_next = ground (arith, n.advanced (root_of k), root_on_path, v.root_next);
    inner_next = λ a u ne. ground (arith, n.advanced a, v.inner_next a);
    nextpid = omega arith;
    vacant = v.vacant;
  }

  pub advanced-Inv : Inv advanced
  advanced-Inv = Inv-carry v advanced-Carries

  unfoldable pub numbered_proc : ℕ → Proc
  unfolding claimed
  numbered_proc s = record (claimed k.nextpid k.ticks ns (k.procs s)) { pids = r.0 }

  abbrev pub level_ns : ℕ → ℕ
  level_ns i = level k.spaces (k.spaces ns).depth ns i

  depth_advanced : (r.1 ns).depth ≡ (k.spaces ns).depth
  depth_advanced =
      (advanced-Carries.agree ns (Inhabited-self k.spaces (k.spaces ns).depth ns at_home.in_use)).2

  level_advanced : (i : ℕ) → level r.1 (r.1 ns).depth ns i ≡ level_ns i
  level_advanced i =
      ap (λ d. level r.1 d ns i) depth_advanced
      ∙ level-Agree k.spaces r.1 (k.spaces ns).depth ns i advanced-Carries.agree at_home.in_use

  pub pid-level : (i : ℕ) → i ≤ (k.spaces ns).depth → r.0 i ≡ (k.spaces (level_ns i)).next_ns_pid
  pid-level i le = ground (arith, n.numbers i)

  below_advanced :
      (i : ℕ) → i ≤ (r.1 ns).depth → r.0 i < (r.1 (level r.1 (r.1 ns).depth ns i)).next_ns_pid
  below_advanced i le =
      let le' : i ≤ (k.spaces ns).depth = omega (arith, depth_advanced) in
      ground (
        arith,
        pid-level i le',
        level_advanced i,
        n.advanced (level_ns i),
        on_path-level k.spaces (k.spaces ns).depth ns i at_home.rooted le',
      )

  apart_advanced :
      (t i : ℕ)
      → t < nproc
      → IsLive (k.procs t)
      → i ≤ depth_of advanced t
      → i ≤ (r.1 ns).depth
      → level r.1 (r.1 ns).depth ns i ≡ space_of advanced t i
      → (k.procs t).pids i ≢ r.0 i
  apart_advanced t i h l le_t le e clash =
      let le_k : i ≤ depth_of k t = omega (arith, depth_kept v advanced-Carries t h l) in
      let same_space : level_ns i ≡ space_of k t i =
        sym (level_advanced i) ∙ e ∙ space_kept v advanced-Carries t h l i in
      omega (
        arith,
        v.issued t i h l le_k,
        pid-level i (omega (arith, depth_advanced)),
        ap (λ b. (k.spaces b).next_ns_pid) same_space,
        clash,
      )

  global_advanced : k.nextpid ≡ r.0 0
  global_advanced = omega (
    arith,
    pid-level 0 (omega arith),
    v.root_next,
    ap (λ b. (k.spaces b).next_ns_pid) at_home.grounded,
  )

  root_depth : (k.spaces (root_of k)).depth ≡ 0
  root_depth =
      ap (λ b. (k.spaces b).depth) (sym at_home.grounded)
      ∙ depth-level k.spaces (k.spaces ns).depth ns 0 at_home.rooted (omega arith)

  smaller_advanced : (i : ℕ) → i ≤ (r.1 ns).depth → 0 < i → r.0 i < k.nextpid
  smaller_advanced i le pos =
      let le' : i ≤ (k.spaces ns).depth = omega (arith, depth_advanced) in
      omega (
        arith,
        pid-level i le',
        v.inner_next (level_ns i) (level-used k.spaces (k.spaces ns).depth ns i at_home.in_use)
            (λ e. omega (
              arith,
              depth-level k.spaces (k.spaces ns).depth ns i at_home.rooted le',
              ap (λ b. (k.spaces b).depth) e,
              root_depth,
            )),
      )

  -- The slot with its new pids fits the advanced table.
  numbered-Fits : (s : ℕ) → Fits advanced s (numbered_proc s) ns
  unfolding numbered_proc claimed
  numbered-Fits s = record {
    live = refl;
    ns = refl;
    home_fits = IsHome-Agree k.spaces r.1 (root_of k) ns advanced-Carries.agree at_home;
    below = below_advanced;
    apart = apart_advanced;
    global_fits = global_advanced;
    smaller_fits = smaller_advanced;
  }

  pub numbered-Inv : (s : ℕ) → Inv (set_proc advanced s (numbered_proc s))
  numbered-Inv s = Inv-add advanced s (numbered_proc s) ns advanced-Inv (numbered-Fits s)
