-- ===== src/Proc/Fork/Graft.antt =====
-- A namespace taken from the table by `allocnamespace` and attached below that of the caller.
use jklnkhbv.Base.{
  ℕ, suc, ◌<◌, ◌≡◌, ◌≢◌, refl, sym, ap, ◌∙◌, true, false, some, ◌==◌, arith, subst, Bool-cases, inl,
  inr,
}
use jklnkhbv.Proc.{Kernel, max_depth}
use jklnkhbv.Proc.Levels.{Spaces, at, IsRooted, level}
use jklnkhbv.Proc.Levels.Stable.{Agree, Inhabited, IsRooted-Agree, Inhabited-Agree, level-Agree}
use jklnkhbv.Proc.Inv.{IsHome, root_of, Inv}
use jklnkhbv.Proc.Inv.Carry.{Carries, Inv-carry}

module _ {M : Type 0} (k : Kernel M) (a : ℕ) (s : Spaces) where
  -- The table `s` differs from that of `k` at the free entry `a` only, which is now in use.
  pub record Grafted : Type 0 where
    pub free : (k.spaces a).used ≡ false
    pub used : (s a).used ≡ true
    pub next : (s a).next_ns_pid ≡ 1
    pub others : (b : ℕ) → b ≢ a → s b ≡ k.spaces b

  module _ (v : Inv k) (g : Grafted) where
    pub Agree-graft : Agree k.spaces s
    Agree-graft b u = elim (Bool-cases (b == a)) [
      | inl e ↦ ground (arith, g.free)
      | inr ne ↦
          let e = g.others b (ground arith) in (rw e u, ap (λ n. n.parent) e, ap (λ n. n.depth) e)
    ]

    graft-Carries : (id : ℕ) → Carries k (record k { spaces = s; nextnamespace = id })
    graft-Carries id = record {
      slots = λ t h l. record { live = l; ns = refl; pids = refl; pid = refl };
      agree = Agree-graft;
      grows = λ b u. ground (arith, g.others b, g.free);
      root = refl;
      root_next = ground (arith, g.others (root_of k), g.free, v.root_used, v.root_next);
      inner_next = λ b u ne. ground (arith, g.others b, v.inner_next b, g.next, v.started);
      nextpid = omega arith;
      vacant = v.vacant;
    }

    pub graft-Inv : (id : ℕ) → Inv (record k { spaces = s; nextnamespace = id })
    graft-Inv id = Inv-carry v (graft-Carries id)

    -- Below the home of a process it is a home, if that is not too deep.
    pub graft-IsHome :
        (outer : ℕ)
        → IsHome k.spaces (root_of k) outer
        → (s a).parent ≡ some outer
        → (s a).depth ≡ suc (k.spaces outer).depth
        → suc (k.spaces outer).depth < max_depth
        → IsHome s (root_of k) a
    unfolding level
    graft-IsHome outer h p d shallow = record {
      rooted =
          subst (λ n. IsRooted s n a) (sym d)
            (
              d,
              p ∙ ap some (sym (ap at p)),
              subst (λ o. IsRooted s (k.spaces outer).depth o) (sym (ap at p))
                  (IsRooted-Agree k.spaces s (k.spaces outer).depth outer Agree-graft h.in_use
                    h.rooted),
            );
      shallow = rw d shallow;
      in_use =
          subst (λ n. Inhabited s n a) (sym d)
            (
              g.used,
              subst (λ o. Inhabited s (k.spaces outer).depth o) (sym (ap at p))
                  (Inhabited-Agree k.spaces s (k.spaces outer).depth outer Agree-graft h.in_use),
            );
      grounded = ap (λ n. level s n a 0) d ∙ below;
    }
      where
        below : level s (suc (k.spaces outer).depth) a 0 ≡ root_of k
        below = ground (
          arith,
          p,
          level-Agree k.spaces s (k.spaces outer).depth outer 0 Agree-graft h.in_use,
          h.grounded,
        )
