-- ===== src/Proc/Inv/Quiet.antt =====
-- Steps that change neither the namespaces nor the numbers of a process; they may free slots.
use jklnkhbv.Base.{ℕ, ◌<◌, ◌≡◌, refl, ap, ◌∙◌, true, arith}
use jklnkhbv.Proc.{Proc, Kernel, is_unused, nproc}
use jklnkhbv.Proc.Inv.{IsLive, Vacant, Inv}
use jklnkhbv.Proc.Inv.Carry.{SameProcess, Inv-slots}
use jklnkhbv.Proc.Alloc.{set_proc}

module _ {M : Type 0} where
  pub record Quiet (k k' : Kernel M) : Type 0 where
    pub slots : (s : ℕ) → s < nproc → IsLive (k'.procs s) → SameProcess (k.procs s) (k'.procs s)
    pub spaces : k'.spaces ≡ k.spaces
    pub nextpid : k'.nextpid ≡ k.nextpid
    pub initns : k'.initnamespace ≡ k.initnamespace
    pub vacant : Vacant k → Vacant k'

  pub Quiet-refl : (k : Kernel M) → Quiet k k
  Quiet-refl k = record {
    slots = λ s h l. record { live = l; ns = refl; pids = refl; pid = refl };
    spaces = refl;
    nextpid = refl;
    initns = refl;
    vacant = λ o. o;
  }

  pub Quiet-trans : {k k1 k2 : Kernel M} → Quiet k k1 → Quiet k1 k2 → Quiet k k2
  Quiet-trans p q = record {
    slots = λ s h l.
        let b = q.slots s h l in
        let a = p.slots s h b.live in
        record { live = a.live; ns = b.ns ∙ a.ns; pids = b.pids ∙ a.pids; pid = b.pid ∙ a.pid };
    spaces = q.spaces ∙ p.spaces;
    nextpid = q.nextpid ∙ p.nextpid;
    initns = q.initns ∙ p.initns;
    vacant = λ o. q.vacant (p.vacant o);
  }

  pub Inv-Quiet : {k k' : Kernel M} → Inv k → Quiet k k' → Inv k'
  Inv-Quiet {k} {k'} v q =
      Inv-slots v
        (λ a.
          let e = ap (λ f. f a) q.spaces in
          (
            ap (λ n. n.parent) e,
            ap (λ n. n.depth) e,
            ap (λ n. n.used) e,
            ap (λ n. n.next_ns_pid) e,
          ))
        q.nextpid q.initns q.slots (q.vacant v.vacant)

  pub rest-Quiet : (k : Kernel M) (m : M) → Quiet k (record k { rest = m })
  rest-Quiet k m = record {
    slots = λ s h l. record { live = l; ns = refl; pids = refl; pid = refl };
    spaces = refl;
    nextpid = refl;
    initns = refl;
    vacant = λ o. o;
  }

  -- A write of one slot that keeps the process there.
  pub set_proc-Quiet :
      (k : Kernel M) (s : ℕ) (p : Proc)
      → (IsLive p → SameProcess (k.procs s) p)
      → (is_unused p.state ≡ true
          → (is_unused (k.procs s).state ≡ true) × (p.parent ≡ (k.procs s).parent))
      → Quiet k (set_proc k s p)
  set_proc-Quiet k s p same_p same_parent = record {
    slots = λ t h l. record {
      live = ground (arith, same_p);
      ns = ground (arith, same_p);
      pids = ground (arith, same_p);
      pid = ground (arith, same_p);
    };
    spaces = refl;
    nextpid = refl;
    initns = refl;
    vacant = λ o t h u. ground (arith, o t h, same_parent);
  }
