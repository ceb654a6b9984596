-- ===== src/Proc/Levels/Numbering.antt =====
-- The loop of `allocproc` that gives the new process a pid in its namespace and in each one above.
use jklnkhbv.Base.{
  ℕ, zero, suc, ◌≤◌, ◌≡◌, ◌≢◌, refl, sym, ap, ◌∙◌, Bool, true, some, update, ◌==◌, ◌&&◌, leb, arith,
  if◌then◌else◌,
}
use jklnkhbv.Proc.Namespaces.{take_pid, number_levels}
use jklnkhbv.Proc.Levels.{
  Spaces, at, IsRooted, level, depth-level, SameTree, IsRooted-SameTree, level-SameTree,
}

-- `b` is `a`, of depth `d`, or an ancestor of it.
abbrev pub on_path : Spaces → ℕ → ℕ → ℕ → Bool
on_path spaces d a b = leb (spaces b).depth d && level spaces d a (spaces b).depth == b

-- What the loop leaves: a pid from each namespace on the path, and these namespaces advanced.
pub record Numbered (spaces : Spaces) (d a : ℕ) (pids : ℕ → ℕ) (r : (ℕ → ℕ) × Spaces) : Type 0 where
  pub numbers :
      (i : ℕ) → r.0 i ≡ (if leb i d then (spaces (level spaces d a i)).next_ns_pid else pids i)
  pub advanced : (b : ℕ) → r.1 b ≡ (if on_path spaces d a b then take_pid (spaces b) else spaces b)

take-SameTree : (spaces : Spaces) (a : ℕ) → SameTree spaces (update spaces a (take_pid (spaces a)))
take-SameTree spaces a b = ground arith

module _ (spaces : Spaces) (d a : ℕ) (pids : ℕ → ℕ) (rooted : IsRooted spaces (suc d) a) where
  up : ℕ
  up = at (spaces a).parent

  next : Spaces
  next = update spaces a (take_pid (spaces a))

  level-next : (i : ℕ) → level next d up i ≡ level spaces d up i
  unfolding next
  level-next i = sym (level-SameTree spaces next d up i (take-SameTree spaces a))

  level-ne : (i : ℕ) → i ≤ d → level spaces d up i ≢ a
  unfolding up
  level-ne i h e =
      omega (arith, depth-level spaces d up i rooted.2 h, ap (λ b. (spaces b).depth) e, rooted.0)

  Numbered-step :
      (r : (ℕ → ℕ) × Spaces)
      → Numbered next d up (update pids (suc d) (spaces a).next_ns_pid) r
      → Numbered spaces (suc d) a pids r
  unfolding next up level
  Numbered-step r n = record {
    numbers = λ i. ground (arith, n.numbers i, level-next i, level-ne i);
    advanced = λ b. ground (
      arith,
      n.advanced b,
      level-next (spaces b).depth,
      level-next (next b).depth,
      level-ne (spaces b).depth,
      rooted.0,
    );
  }

pub number_levels_lem :
    (d a : ℕ) (pids : ℕ → ℕ) (spaces : Spaces)
    → IsRooted spaces d a
    → (r : (ℕ → ℕ) × Spaces) × (number_levels (suc d) (some a) pids spaces ≡ some r)
      × Numbered spaces d a pids r
unfolding number_levels level up next
number_levels_lem zero a pids spaces rooted =
    (_, refl, record { numbers = λ i. ground arith; advanced = λ b. ground (arith, rooted.0) })
number_levels_lem (suc d) a pids spaces rooted =
    let pids' : ℕ → ℕ = update pids (suc d) (spaces a).next_ns_pid in
    let spaces' : Spaces = next spaces d a pids rooted in
    let (r, e, n) =
      number_levels_lem d (at (spaces a).parent) pids' spaces'
        (IsRooted-SameTree spaces spaces' d _ (take-SameTree spaces a) rooted.2) in
    (
      r,
      ap (λ c. number_levels (suc d) c pids' spaces') rooted.1 ∙ e,
      Numbered-step spaces d a pids rooted r n,
    )

pub on_path-level :
    (spaces : Spaces) (d a i : ℕ)
    → IsRooted spaces d a
    → i ≤ d
    → on_path spaces d a (level spaces d a i) ≡ true
on_path-level spaces d a i rooted h =
    let e : (spaces (level spaces d a i)).depth ≡ i = depth-level spaces d a i rooted h in
    ground (arith, e, ap (level spaces d a) e)
