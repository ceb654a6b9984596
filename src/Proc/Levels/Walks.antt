-- ===== src/Proc/Levels/Walks.antt =====
-- What `compare_ns` and `get_ns_head` find on the chain of parents.
use jklnkhbv.Base.{ℕ, zero, suc, ◌<◌, ◌≡◌, ap, ◌∙◌, Option, some, arith, if◌then◌else◌}
use jklnkhbv.Proc.{max_depth}
use jklnkhbv.Proc.Namespaces.{compare_loop, compare_ns, head_loop, get_ns_head, is_null}
use jklnkhbv.Proc.Levels.{Spaces, at, IsRooted, level}
use jklnkhbv.Proc.Levels.Numbering.{on_path}

compare_loop_lem :
    (fuel d : ℕ) (spaces : Spaces) (a b : ℕ)
    → suc d < fuel
    → IsRooted spaces d a
    → compare_loop fuel spaces (some a) (some b) ≡ some (on_path spaces d a b)
unfolding compare_loop level
compare_loop_lem zero d spaces a b h r = absurd (omega arith)
compare_loop_lem (suc zero) d spaces a b h r = absurd (omega arith)
compare_loop_lem (suc (suc fuel)) zero spaces a b h r =
    let e = ap (λ c. compare_loop (suc fuel) spaces c (some b)) r.1 in ground (arith, e, r.0)
compare_loop_lem (suc (suc fuel)) (suc d) spaces a b h r =
    let e =
      ap (λ c. compare_loop (suc fuel) spaces c (some b)) r.1
      ∙ compare_loop_lem (suc fuel) d spaces (at (spaces a).parent) b (omega arith) r.2 in
    ground (arith, e, r.0)

-- From a namespace whose chain of parents has the depths `d, …, 0`, with `d` below `max_depth`,
-- `compare_ns` comes to its end, and tells whether `b` is that namespace or an ancestor of it.
pub compare_ns_lem :
    (d : ℕ) (spaces : Spaces) (a b : ℕ)
    → d < max_depth
    → IsRooted spaces d a
    → compare_ns spaces (some a) (some b) ≡ some (on_path spaces d a b)
unfolding compare_ns
compare_ns_lem d spaces a b h r = compare_loop_lem 64 d spaces a b (omega arith) r

-- The head of the nearest namespace that has one, from `a` of depth `d` upwards.
unfoldable pub heir : Spaces → ℕ → ℕ → Option ℕ
heir spaces zero a = (spaces a).head
heir spaces (suc d) a =
    let up = heir spaces d (at (spaces a).parent) in
    if is_null (spaces a).head then up else (spaces a).head

head_loop_lem :
    (fuel d : ℕ) (spaces : Spaces) (a : ℕ)
    → d < fuel
    → IsRooted spaces d a
    → head_loop fuel spaces (some a) ≡ some (heir spaces d a)
unfolding head_loop heir
head_loop_lem zero d spaces a h r = absurd (omega arith)
head_loop_lem (suc fuel) zero spaces a h r = ground (arith, r.0)
head_loop_lem (suc fuel) (suc d) spaces a h r =
    let e =
      ap (λ c. head_loop fuel spaces c) r.1
      ∙ head_loop_lem fuel d spaces (at (spaces a).parent) (omega arith) r.2 in
    ground (arith, e, r.0)

-- From a namespace whose chain of parents has the depths `d, …, 0`, with `d` below `max_depth`,
-- `get_ns_head` comes to its end, and finds the head of the nearest namespace that has one.
pub get_ns_head_lem :
    (d : ℕ) (spaces : Spaces) (a : ℕ)
    → d < max_depth
    → IsRooted spaces d a
    → get_ns_head spaces (some a) ≡ some (heir spaces d a)
unfolding get_ns_head
get_ns_head_lem d spaces a h r = head_loop_lem 64 d spaces a (omega arith) r

pub heir-head : (spaces : Spaces) (d a p : ℕ) → (spaces a).head ≡ some p → heir spaces d a ≡ some p
unfolding heir
heir-head spaces zero a p h = h
heir-head spaces (suc d) a p h = ground arith
