-- ===== src/Proc/Levels.antt =====
-- The tree of namespaces: a namespace of depth `d` has ancestors at the levels below `d`. What
-- the walks of kernel/proc.c along `parent` (`allocproc`, `compare_ns`, `get_ns_head`) come to.
pub mod Numbering
pub mod Walks
pub mod Stable
use jklnkhbv.Base.{ℕ, zero, suc, ◌≤◌, ◌≡◌, refl, Option, none, some, ◌==◌, arith, if◌then◌else◌}
use jklnkhbv.Proc.{Namespace}

abbrev pub Spaces : Type 0
Spaces = ℕ → Namespace

abbrev pub at : Option ℕ → ℕ
at none = 0
at (some a) = a

-- Namespace `a` has depth `d`, and its chain of parents has the depths `d - 1, …, 0` and ends
-- there.
abbrev pub IsRooted : Spaces → ℕ → ℕ → Type 0
IsRooted spaces zero a = ((spaces a).depth ≡ 0) × ((spaces a).parent ≡ none)
IsRooted spaces (suc d) a =
    ((spaces a).depth ≡ suc d)
    × ((spaces a).parent ≡ some (at (spaces a).parent))
    × IsRooted spaces d (at (spaces a).parent)

-- The ancestor at level `i` of the namespace `a` of depth `d`.
unfoldable pub level : Spaces → ℕ → ℕ → ℕ → ℕ
level spaces zero a i = a
level spaces (suc d) a i =
    let up = level spaces d (at (spaces a).parent) i in if i == suc d then a else up

pub IsRooted-depth : (spaces : Spaces) (d a : ℕ) → IsRooted spaces d a → (spaces a).depth ≡ d
IsRooted-depth spaces zero a r = r.0
IsRooted-depth spaces (suc d) a r = r.0

-- An ancestor has the depth of its level.
pub depth-level :
    (spaces : Spaces) (d a i : ℕ)
    → IsRooted spaces d a
    → i ≤ d
    → (spaces (level spaces d a i)).depth ≡ i
unfolding level
depth-level spaces zero a i r h = omega arith
depth-level spaces (suc d) a i r h =
    ground (arith, depth-level spaces d (at (spaces a).parent) i r.2)

pub level_self : (spaces : Spaces) (d a : ℕ) → level spaces d a d ≡ a
unfolding level
level_self spaces zero a = refl
level_self spaces (suc d) a = ground arith

-- Two tables with the same parents and depths.
abbrev pub SameTree : Spaces → Spaces → Type 0
SameTree s t = (a : ℕ) → ((s a).parent ≡ (t a).parent) × ((s a).depth ≡ (t a).depth)

pub IsRooted-SameTree : (s t : Spaces) (d a : ℕ) → SameTree s t → IsRooted s d a → IsRooted t d a
IsRooted-SameTree s t zero a h r = ground (arith, h a)
IsRooted-SameTree s t (suc d) a h r =
    ground (arith, h a, IsRooted-SameTree s t d (at (s a).parent) h r.2)

pub level-SameTree : (s t : Spaces) (d a i : ℕ) → SameTree s t → level s d a i ≡ level t d a i
unfolding level
level-SameTree s t zero a i h = refl
level-SameTree s t (suc d) a i h = ground (arith, h a, level-SameTree s t d (at (s a).parent) i h)
