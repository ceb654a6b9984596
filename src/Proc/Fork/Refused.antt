-- ===== src/Proc/Fork/Refused.antt =====
-- The failures of `clone` of kernel/proc.c.
use jklnkhbv.Base.{
  ℕ, suc, ◌≤◌, ◌<◌, ◌≡◌, refl, ◌∙◌, true, false, not, some, arith, find_from, find_from-some,
  Option-cases, inl, inr,
}
use jklnkhbv.Proc.{numns, Kernel, max_depth}
use jklnkhbv.Proc.Services.{Services}
use jklnkhbv.Proc.Inv.{depth_of, Inv}
use jklnkhbv.Proc.Fork.{err, clone, attach, enter_namespace, clone_from}
use jklnkhbv.Proc.Fork.Keeps.{Runs}
use jklnkhbv.Proc.Fork.Cloned.{
  attached-outer, refused, refused-Inv, allocnamespace-none, allocnamespace-some,
  clone-allocnamespace,
}

module _ {M : Type 0} (sv : Services M) (k : Kernel M) (cur : ℕ) (v : Inv k)
    (run : Runs k cur) where
  -- In a state that satisfies `Inv`, where a namespace is free, `clone` fails in a process at the
  -- last level, and marks the first free namespace as used; no process changes.
  pub clone_deep :
      (a : ℕ)
      → max_depth ≤ suc (depth_of k cur)
      → find_from (λ a. not (k.spaces a).used) numns 0 ≡ some a
      → (k' : Kernel M) × (clone sv k cur ≡ some (err, k'))
        × Inv k'
        × ((k'.spaces a).used ≡ true)
        × (k'.procs ≡ k.procs)
  unfolding clone_from enter_namespace attach
  clone_deep a deep e =
      let hit = find_from-some (λ a. not (k.spaces a).used) numns 0 a e in
      let free : (k.spaces a).used ≡ false = ground (arith, hit.0) in
      (
        refused k cur v run a free,
        clone-allocnamespace k sv cur _ (allocnamespace-some k a e)
            ∙ rw (v.placed cur run.slot run.live)
                (ground (arith, attached-outer k cur v run a free)),
        refused-Inv k cur v run a free,
        ground arith,
        refl,
      )

module _ {M : Type 0} (sv : Services M) (k : Kernel M) (cur : ℕ) where
  -- Where no namespace is free, `clone` fails and leaves the state as it is.
  pub clone_full : ((a : ℕ) → a < numns → (k.spaces a).used ≡ true) → clone sv k cur ≡ some (err, k)
  unfolding clone_from
  clone_full full = elim (Option-cases (find_from (λ a. not (k.spaces a).used) numns 0)) [
    | inl e ↦ clone-allocnamespace k sv cur _ (allocnamespace-none k e)
    | inr (a, e) ↦
        let hit = find_from-some (λ a. not (k.spaces a).used) numns 0 a e in
        absurd (ground (arith, hit.0, full a (omega arith)))
  ]
