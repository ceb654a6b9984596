-- ===== src/Files/Counted.antt =====
-- The references to an open file, counted over the descriptors that hold it.
use jklnkhbv.Base.{
  ℕ, zero, suc, ◌+◌, ◌≤◌, ◌<◌, ◌≡◌, ◌≢◌, inl, inr, refl, ap, Bool-cases, ◌==◌, Option, none, some,
  same, update, update_self, update_ne, arith, if◌then◌else◌,
}
use jklnkhbv.Proc.{nofile}
use jklnkhbv.Files.{fd_none, Ftable, nfile}

-- 1 if the descriptor holds the file `f`, else 0.
abbrev pub holds : Option ℕ → ℕ → ℕ
holds o f = if same o (some f) then 1 else 0

-- The descriptors among the `n` from `i` on that hold `f`.
unfoldable pub count : ℕ → ℕ → (ℕ → Option ℕ) → ℕ → ℕ
count zero i ofile f = 0
count (suc n) i ofile f = holds (ofile i) f + count n (i + 1) ofile f

pub count-bound : (n i : ℕ) (ofile : ℕ → Option ℕ) (f : ℕ) → count n i ofile f ≤ n
unfolding count
count-bound zero i ofile f = omega arith
count-bound (suc n) i ofile f = ground (arith, count-bound n (i + 1) ofile f)

count-outside :
    (n i : ℕ) (ofile : ℕ → Option ℕ) (fd : ℕ) (v : Option ℕ) (f : ℕ)
    → fd < i
    → count n i (update ofile fd v) f ≡ count n i ofile f
unfolding count
count-outside zero i ofile fd v f lt = refl
count-outside (suc n) i ofile fd v f lt =
    let rest = count-outside n (i + 1) ofile fd v f (omega (arith, lt)) in ground (arith, lt, rest)

-- A change of one descriptor gives up what it held and adds what it holds.
count-update :
    (n i : ℕ) (ofile : ℕ → Option ℕ) (fd : ℕ) (v : Option ℕ) (f : ℕ)
    → i ≤ fd
    → fd < i + n
    → count n i (update ofile fd v) f + holds (ofile fd) f ≡ count n i ofile f + holds v f
unfolding count
count-update zero i ofile fd v f lo hi = absurd (omega (arith, lo, hi))
count-update (suc n) i ofile fd v f lo hi = elim (Bool-cases (fd == i)) [
  | inl h ↦
      let at : fd ≡ i = ground (arith, h) in
      let new = ap (λ o. holds o f) (update_self ofile fd i v at) in
      let old = ap (λ j. holds (ofile j) f) at in
      let rest = count-outside n (i + 1) ofile fd v f (omega (arith, at)) in
      omega (arith, new, old, rest)
  | inr h ↦
      let off : fd ≢ i = ground (arith, h) in
      let kept = ap (λ o. holds o f) (update_ne ofile fd i v off) in
      let rest = count-update n (i + 1) ofile fd v f (omega (arith, off, lo)) (omega (arith, hi)) in
      omega (arith, kept, rest)
]

pub count-member :
    (n i : ℕ) (ofile : ℕ → Option ℕ) (fd f : ℕ)
    → i ≤ fd
    → fd < i + n
    → ofile fd ≡ some f
    → 1 ≤ count n i ofile f
count-member n i ofile fd f lo hi e =
    let held = ap (λ o. holds o f) e in
    let one : holds (some f) f ≡ 1 = ground arith in
    let given = count-update n i ofile fd none f lo hi in omega (arith, held, one, given)

-- One more reference to `f`, held by no descriptor of the caller.
abbrev pub hold : ℕ → (ℕ → ℕ) → ℕ → ℕ
hold f others g = others g + holds (some f) g

-- A file has a reference for each descriptor of the caller that holds it, and `others` more. A file
-- without references has no type.
pub record Counted {M : Type 0} (ofile : ℕ → Option ℕ) (others : ℕ → ℕ) (t : Ftable M)
    : Type 0 where
  pub refs : (f : ℕ) → f < nfile → (t.file f).ref ≡ count nofile 0 ofile f + others f
  pub real : (fd f : ℕ) → fd < nofile → ofile fd ≡ some f → f < nfile
  pub idle : (f : ℕ) → f < nfile → (t.file f).ref ≡ 0 → (t.file f).typ ≡ fd_none

module _ {M : Type 0} {others : ℕ → ℕ} {t : Ftable M} where
  -- A descriptor without a file takes over a reference.
  pub take-Counted :
      {ofile : ℕ → Option ℕ} (fd f : ℕ)
      → fd < nofile
      → f < nfile
      → ofile fd ≡ none
      → Counted ofile (hold f others) t
      → Counted (update ofile fd (some f)) others t
  take-Counted {ofile} fd f lt real free c = record {
    refs = λ g h.
        let moved = count-update nofile 0 ofile fd (some f) g (omega arith) (omega (arith, lt)) in
        let before = ap (λ o. holds o g) free in omega (arith, c.refs g h, moved, before);
    real = λ j g h e. ground (arith, real, c.real j g h);
    idle = c.idle;
  }

  -- A descriptor gives its reference up.
  pub give-Counted :
      {ofile : ℕ → Option ℕ} (fd f : ℕ)
      → fd < nofile
      → ofile fd ≡ some f
      → Counted ofile others t
      → Counted (update ofile fd none) (hold f others) t
  give-Counted {ofile} fd f lt held c = record {
    refs = λ g h.
        let moved = count-update nofile 0 ofile fd none g (omega arith) (omega (arith, lt)) in
        let before = ap (λ o. holds o g) held in omega (arith, c.refs g h, moved, before);
    real = λ j g h e. ground (arith, c.real j g h, e);
    idle = c.idle;
  }
