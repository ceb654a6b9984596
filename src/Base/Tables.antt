-- ===== src/Base/Tables.antt =====
-- C arrays as functions of the index, and unsigned 32-bit arithmetic.
use Prim.Native.Nat.{ℕ, zero, suc, ◌+◌, ◌-◌, ◌%◌, ◌^◌, ◌≤◌, ◌<◌}
use mathlib.Core.Path.{◌≡◌, fun_ext}
use mathlib.Core.Logic.{◌≢◌}
use mathlib.Core.Bool.{Bool, true, false}
use mathlib.Core.Option.{Option, none, some}
use native.Mathlib.Omega.{arith}
use jklnkhbv.Base.Tests.{◌==◌, if◌then◌else◌}

-- `f[i] = a`
abbrev pub update {ℓ} : {A : Type ℓ} → (ℕ → A) → ℕ → A → ℕ → A
update f i a j = if i == j then a else f j

pub update_self {ℓ} : {A : Type ℓ} (f : ℕ → A) (i j : ℕ) (a : A) → i ≡ j → update f i a j ≡ a
update_self f i j a e = ground arith

pub update_ne {ℓ} : {A : Type ℓ} (f : ℕ → A) (i j : ℕ) (a : A) → i ≢ j → update f i a j ≡ f j
update_ne f i j a ne = ground arith

pub update_same {ℓ} : {A : Type ℓ} (f : ℕ → A) (i : ℕ) → update f i (f i) ≡ f
update_same f i = fun_ext (λ j. ground arith)

abbrev pub u32_mod : ℕ
u32_mod = 2 ^ 32

abbrev pub add32 : ℕ → ℕ → ℕ
add32 a b = (a + b) % u32_mod

-- The difference of two values below `u32_mod`, which wraps.
abbrev pub sub32 : ℕ → ℕ → ℕ
sub32 a b = (a + u32_mod - b) % u32_mod

-- `for (j = i; j < i + n; j++) if (test(j)) return j;`
unfoldable pub find_from : (ℕ → Bool) → ℕ → ℕ → Option ℕ
find_from test zero i = none
find_from test (suc n) i = let rest = find_from test n (i + 1) in if test i then some i else rest

pub find_from-some :
    (test : ℕ → Bool) (n i s : ℕ)
    → find_from test n i ≡ some s
    → (test s ≡ true) × (i ≤ s) × (s < i + n)
unfolding find_from
find_from-some test zero i s h = ground arith
find_from-some test (suc n) i s h = ground (arith, find_from-some test n (i + 1) s)

-- The scan stops at the first hit.
pub find_from-first :
    (test : ℕ → Bool) (n i s j : ℕ) → find_from test n i ≡ some s → i ≤ j → j < s → test j ≡ false
unfolding find_from
find_from-first test zero i s j h le lt = ground arith
find_from-first test (suc n) i s j h le lt = ground (arith, find_from-first test n (i + 1) s j)

pub find_from-none :
    (test : ℕ → Bool) (n i j : ℕ) → find_from test n i ≡ none → i ≤ j → j < i + n → test j ≡ false
unfolding find_from
find_from-none test zero i j h le lt = absurd (omega arith)
find_from-none test (suc n) i j h le lt = ground (arith, find_from-none test n (i + 1) j)
