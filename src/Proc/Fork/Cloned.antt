-- ===== src/Proc/Fork/Cloned.antt =====
-- `clone`: it comes to its end, keeps the invariant, and makes a child in a new namespace.
use jklnkhbv.Base.{
  ℕ, suc, ◌+◌, ◌<◌, ◌≡◌, ◌≢◌, refl, sym, ap, ◌∙◌, false, not, Option, none, some, update, arith,
  subst, find_from, find_from-some, leb, Option-cases, Bool-cases, inl, inr, ◌>>=◌,
}
use jklnkhbv.Proc.{numns, Kernel, max_depth}
use jklnkhbv.Proc.Services.{Services}
use jklnkhbv.Proc.Namespaces.{allocnamespace, fresh_namespace}
use jklnkhbv.Proc.Levels.{Spaces, at, level, level_self}
use jklnkhbv.Proc.Inv.{Inhabited-self, IsHome, home, root_of, depth_of, Inv}
use jklnkhbv.Proc.Alloc.{allocproc}
use jklnkhbv.Proc.Alloc.Born.{Outcome, allocproc-Outcome}
use jklnkhbv.Proc.Fork.{
  Code, err, val, clone, start_head, populate, attach, enter_namespace, clone_from,
}
use jklnkhbv.Proc.Fork.Keeps.{Runs}
use jklnkhbv.Proc.Fork.Graft.{Grafted, graft-Inv, graft-IsHome}
use jklnkhbv.Proc.PsList.{getpid, getppid}
use jklnkhbv.Proc.Inv.Carry.{Inv-slots}
use jklnkhbv.Proc.Fork.Child.{Child, Prepared, Allocated-crowned, crowned, copy_Child}

module _ {M : Type 0} (k : Kernel M) (cur : ℕ) (v : Inv k) (run : Runs k cur) (a : ℕ)
    (free : (k.spaces a).used ≡ false) where
  abbrev outer : ℕ
  outer = home k cur

  outer-ne : outer ≢ a
  outer-ne e = ground (
    arith,
    free,
    Inhabited-self k.spaces (depth_of k cur) outer (v.homes cur run.slot run.live).in_use,
    ap (λ b. (k.spaces b).used) e,
  )

  -- The tables of the three stages of `clone`: with the entry set up, attached, and at its depth.
  abbrev set_up : Spaces
  set_up = update k.spaces a (fresh_namespace k.nextnamespace)

  abbrev attached : Spaces
  attached = update set_up a (record (set_up a) { parent = some outer })

  abbrev deeper : Spaces
  deeper = update attached a (record (attached a) { depth = (attached outer).depth + 1 })

  pub attached-outer : (attached outer).depth ≡ depth_of k cur
  attached-outer = ground (arith, outer-ne)

  attached-Grafted : Grafted k a attached
  attached-Grafted = record {
    free = free;
    used = ground arith;
    next = ground arith;
    others = λ b ne. ground arith;
  }

  deeper-Grafted : Grafted k a deeper
  deeper-Grafted = record {
    free = free;
    used = ground arith;
    next = ground arith;
    others = λ b ne. ground arith;
  }

  deeper_depth : (deeper a).depth ≡ suc (depth_of k cur)
  deeper_depth = ground (arith, attached-outer)

  deeper_parent : (deeper a).parent ≡ some outer
  deeper_parent = ground arith

  abbrev pub refused : Kernel M
  refused = record k { nextnamespace = k.nextnamespace + 1; spaces = attached }

  abbrev ready : Kernel M
  ready = record k { nextnamespace = k.nextnamespace + 1; spaces = deeper }

  pub refused-Inv : Inv refused
  refused-Inv = graft-Inv k a attached v attached-Grafted (k.nextnamespace + 1)

  ready-Inv : Inv ready
  ready-Inv = graft-Inv k a deeper v deeper-Grafted (k.nextnamespace + 1)

  ready-IsHome : suc (depth_of k cur) < max_depth → IsHome deeper (root_of k) a
  ready-IsHome h =
      graft-IsHome k a deeper v deeper-Grafted outer (v.homes cur run.slot run.live) deeper_parent
        deeper_depth h

  ready-Prepared : Prepared k cur a ready
  unfolding level
  ready-Prepared = record {
    procs = refl;
    nextpid = refl;
    above = ground (arith, outer-ne);
    reaches = omega (arith, deeper_depth);
    at_depth =
        ap (λ d. level deeper d a (depth_of k cur)) deeper_depth
        ∙ ground (arith, level_self deeper (depth_of k cur) (at (deeper a).parent), deeper_parent);
  }

  -- What the child of `clone` reads.
  clone_reads :
      (n np : ℕ) (k' : Kernel M)
      → Child k cur a n np k'
      → (k'.spaces a).depth ≡ (deeper a).depth
      → (k'.procs np).pids (deeper a).depth ≡ (deeper a).next_ns_pid
      → (getpid k' np ≡ some 1) × (getppid k' np ≡ some 0)
  unfolding getpid getppid
  clone_reads n np k' c d own =
      let caller = c.others cur c.not_caller in
      (
        rw c.ns_set (ap some (ap (k'.procs np).pids d ∙ own ∙ (ground arith))),
        rw (c.parent, c.ns_set, caller, v.placed cur run.slot run.live) (ground (arith, outer-ne)),
      )

  module _ (sv : Services M) where
    crowned-Inv : (k1 : Kernel M) (np : ℕ) → Inv k1 → Inv (crowned k1 a np)
    crowned-Inv k1 np v1 =
        Inv-slots v1 (λ b. (ground arith, ground arith, ground arith, ground arith)) refl refl
          (λ t h l. record { live = l; ns = refl; pids = refl; pid = refl }) v1.vacant

    -- What `clone` leaves when it succeeds with `n`.
    abbrev pub ClonedInto : ℕ → Kernel M → Type 0
    ClonedInto n k' =
        (np : ℕ) × Child k cur a n np k' × (getpid k' np ≡ some 1) × (getppid k' np ≡ some 0)

    populate_from :
        (b : Option ℕ × Kernel M)
        → allocproc sv ready a ≡ some b
        → Outcome ready a b
        → (r : Code × Kernel M) × (populate sv ready cur a ≡ some r)
          × Inv r.1
          × ((n : ℕ) → r.0 ≡ val n → ClonedInto n r.1)
    unfolding populate start_head
    populate_from (none, k1) e o = ((err, k1), rw e, o.0, λ n en. cc)
    populate_from (some np, k1) e o =
        let born = Allocated-crowned ready a np k1 (o.1 np refl) in
        let (r, er, vr, c) =
          copy_Child sv k cur a np ready (crowned k1 a np) run ready-Prepared born
            (crowned-Inv k1 np o.0) in
        (
          r,
          rw e er,
          vr,
          λ n en.
              let (child, d, own) = c n en in
              let (one, zero_above) = clone_reads n np r.1 child d own in
              (np, child, one, zero_above),
        )

    abbrev entered : Kernel M
    entered = record k { nextnamespace = k.nextnamespace + 1; spaces = set_up }

    abbrev CloneOutcome : Option (Code × Kernel M) → Type 0
    CloneOutcome result =
        (r : Code × Kernel M) × (result ≡ some r)
        × Inv r.1
        × ((n : ℕ) → r.0 ≡ val n → (suc (depth_of k cur) < max_depth) × ClonedInto n r.1)

    attach_lem : CloneOutcome (attach sv entered cur a outer)
    unfolding attach
    attach_lem = elim (Bool-cases (leb max_depth ((attached outer).depth + 1))) [
      | inl deep ↦ ((err, refused), ground (arith, deep), refused-Inv, λ n en. cc)
      | inr fits ↦
          let h : suc (depth_of k cur) < max_depth = ground (arith, fits, attached-outer) in
          let (b, eb, o) = allocproc-Outcome sv ready a ready-Inv (ready-IsHome h) in
          let (r, er, vr, c) = populate_from b eb o in
          (r, ground (arith, fits, er), vr, λ n en. (h, c n en))
    ]

    pub enter_lem : CloneOutcome (enter_namespace sv entered cur a)
    unfolding enter_namespace
    enter_lem =
        subst (λ o. CloneOutcome (o >>= λ ns. attach sv entered cur a ns))
          (sym (v.placed cur run.slot run.live)) attach_lem

module _ {M : Type 0} (k : Kernel M) where
  -- The free namespace that `allocnamespace` takes is the first one.
  pub allocnamespace-none :
      find_from (λ a. not (k.spaces a).used) numns 0 ≡ none → allocnamespace k ≡ (none, k)
  unfolding allocnamespace
  allocnamespace-none e = rw (e, allocnamespace)

  pub allocnamespace-some :
      (a : ℕ)
      → find_from (λ a. not (k.spaces a).used) numns 0 ≡ some a
      → allocnamespace k ≡ (
        some a,
        record k {
          nextnamespace = k.nextnamespace + 1;
          spaces = update k.spaces a (fresh_namespace k.nextnamespace);
        },
      )
  unfolding allocnamespace
  allocnamespace-some a e = rw (e, allocnamespace)

  pub clone-allocnamespace :
      (sv : Services M) (cur : ℕ) (r : Option ℕ × Kernel M)
      → allocnamespace k ≡ r
      → clone sv k cur ≡ clone_from sv cur r.0 r.1
  unfolding clone
  clone-allocnamespace sv cur r e = ap (λ (r : Option ℕ × Kernel M). clone_from sv cur r.0 r.1) e

module _ {M : Type 0} (sv : Services M) (k : Kernel M) (cur : ℕ) (v : Inv k)
    (run : Runs k cur) where
  -- In a state that satisfies `Inv` and where the caller runs, `clone` comes to its end, and keeps the
  -- invariant. If it does not fail, the caller was not at
  -- the last level, and has a new child in a namespace that was free: the caller gets the next pid
  -- of its own namespace, the child reads 1 as its pid and 0 as its parent's.
  pub clone_lem :
      (r : Code × Kernel M) × (clone sv k cur ≡ some r)
      × Inv r.1
      × ((n : ℕ)
          → r.0 ≡ val n
          → (a : ℕ) × ((k.spaces a).used ≡ false)
            × (suc (depth_of k cur) < max_depth)
            × (np : ℕ) × Child k cur a n np r.1
            × (getpid r.1 np ≡ some 1)
            × (getppid r.1 np ≡ some 0))
  unfolding clone_from
  clone_lem = elim (Option-cases (find_from (λ a. not (k.spaces a).used) numns 0)) [
    | inl e ↦ ((err, k), clone-allocnamespace k sv cur _ (allocnamespace-none k e), v, λ n en. cc)
    | inr (a, e) ↦
        let hit = find_from-some (λ a. not (k.spaces a).used) numns 0 a e in
        let free : (k.spaces a).used ≡ false = ground (arith, hit.0) in
        let (r, er, vr, c) = enter_lem k cur v run a free sv in
        (
          r,
          clone-allocnamespace k sv cur _ (allocnamespace-some k a e) ∙ er,
          vr,
          λ n en.
              let (shallow, made) = c n en in (a, free, shallow, made.0, made.1, made.2, made.3),
        )
  ]
