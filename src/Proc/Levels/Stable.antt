-- ===== src/Proc/Levels/Stable.antt =====
-- A change of the table that keeps the namespaces in use keeps the tree above each of them.
use jklnkhbv.Base.{ℕ, zero, suc, ◌≡◌, refl, true, arith}
use jklnkhbv.Proc.Levels.{Spaces, at, IsRooted, level}

abbrev pub Agree : Spaces → Spaces → Type 0
Agree s t =
    (b : ℕ)
    → (s b).used ≡ true
    → ((t b).used ≡ true) × ((t b).parent ≡ (s b).parent) × ((t b).depth ≡ (s b).depth)

-- Every namespace from `a`, of depth `d`, up to the root is in use.
abbrev pub Inhabited : Spaces → ℕ → ℕ → Type 0
Inhabited s zero a = (s a).used ≡ true
Inhabited s (suc d) a = ((s a).used ≡ true) × Inhabited s d (at (s a).parent)

pub Inhabited-Agree : (s t : Spaces) (d a : ℕ) → Agree s t → Inhabited s d a → Inhabited t d a
Inhabited-Agree s t zero a h u = (h a u).0
Inhabited-Agree s t (suc d) a h u =
    ground (arith, h a u.0, Inhabited-Agree s t d (at (s a).parent) h u.1)

pub IsRooted-Agree :
    (s t : Spaces) (d a : ℕ) → Agree s t → Inhabited s d a → IsRooted s d a → IsRooted t d a
IsRooted-Agree s t zero a h u r = ground (arith, h a u)
IsRooted-Agree s t (suc d) a h u r =
    ground (arith, h a u.0, IsRooted-Agree s t d (at (s a).parent) h u.1 r.2)

pub level-Agree :
    (s t : Spaces) (d a i : ℕ) → Agree s t → Inhabited s d a → level t d a i ≡ level s d a i
unfolding level
level-Agree s t zero a i h u = refl
level-Agree s t (suc d) a i h u =
    ground (arith, h a u.0, level-Agree s t d (at (s a).parent) i h u.1)

pub level-used : (s : Spaces) (d a i : ℕ) → Inhabited s d a → (s (level s d a i)).used ≡ true
unfolding level
level-used s zero a i u = u
level-used s (suc d) a i u = ground (arith, level-used s d (at (s a).parent) i u.1)
