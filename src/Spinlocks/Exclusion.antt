-- ===== src/Spinlocks/Exclusion.antt =====
-- `acquire` and `release` of kernel/spinlock.c, interleaved in any order.
use jklnkhbv.Base.{ℕ, ◌<◌, ◌≡◌, ◌≢◌, refl, Bool, true, false, some, List, [], ◌∷◌, arith}
use jklnkhbv.Spinlocks.{
  Cpu, push_off, pop_off, initlock, Pc, outside, entering, comparing, spinning, taken, inside,
  checking, releasing, leaving, unlocked, panicked, Machine, next, run,
}

-- From the swap that has found the lock free to the write that frees it.
abbrev pub owns : Pc → Bool
owns outside = false
owns entering = false
owns comparing = false
owns spinning = false
owns taken = true
owns inside = true
owns checking = true
owns releasing = true
owns leaving = true
owns unlocked = false
owns panicked = false

-- While the lock names the processor.
abbrev pub named : Pc → Bool
named outside = false
named entering = false
named comparing = false
named spinning = false
named taken = false
named inside = true
named checking = true
named releasing = true
named leaving = false
named unlocked = false
named panicked = false

pub record IsExclusive (m : Machine) : Type 0 where
  pub one : (i j : ℕ) → owns (m.pc i) ≡ true → owns (m.pc j) ≡ true → i ≡ j
  pub held : (i : ℕ) → owns (m.pc i) ≡ true → m.lk.locked ≡ true
  pub name : (i : ℕ) → m.lk.cpu ≡ some i → named (m.pc i) ≡ true
  pub mine : (i : ℕ) → named (m.pc i) ≡ true → m.lk.cpu ≡ some i
  pub calm : (i : ℕ) → m.pc i ≢ panicked
  pub off : (i : ℕ) → m.pc i ≢ outside → ((m.cpus i).intr ≡ false) × (0 < (m.cpus i).noff)

named→owns : (p : Pc) → named p ≡ true → owns p ≡ true
named→owns p h = ground arith

-- What the step of processor `a` keeps, by the place where it is.
module _ (a : ℕ) (m : Machine) (v : IsExclusive m) where
  next_one :
      (p : Pc)
      → m.pc a ≡ p
      → (i j : ℕ) → owns ((next a m p).pc i) ≡ true
      → owns ((next a m p).pc j) ≡ true
      → i ≡ j
  unfolding next pop_off
  next_one p e i j hi hj =
      ground (arith, e, hi, hj, v.one i j, v.one a i, v.one a j, v.held i, v.held j)

  next_held :
      (p : Pc)
      → m.pc a ≡ p
      → (i : ℕ) → owns ((next a m p).pc i) ≡ true
      → (next a m p).lk.locked ≡ true
  unfolding next pop_off
  next_held p e i h = ground (arith, e, h, v.held i, v.held a, v.one a i)

  next_name :
      (p : Pc)
      → m.pc a ≡ p
      → (i : ℕ) → (next a m p).lk.cpu ≡ some i
      → named ((next a m p).pc i) ≡ true
  unfolding next pop_off
  next_name p e i h = ground (arith, e, h, v.name i, v.held a)

  next_mine :
      (p : Pc)
      → m.pc a ≡ p
      → (i : ℕ) → named ((next a m p).pc i) ≡ true
      → (next a m p).lk.cpu ≡ some i
  unfolding next pop_off
  next_mine p e i h = ground (arith, e, h, v.mine i, v.mine a, v.one a i, named→owns (m.pc i))

  next_calm : (p : Pc) → m.pc a ≡ p → (i : ℕ) → (next a m p).pc i ≢ panicked
  unfolding next pop_off
  next_calm p e i h = ground (arith, e, h, v.calm i, v.name a, v.mine a, v.held a, v.off a)

  next_off :
      (p : Pc)
      → m.pc a ≡ p
      → (i : ℕ) → (next a m p).pc i ≢ outside
      → (((next a m p).cpus i).intr ≡ false) × (0 < ((next a m p).cpus i).noff)
  unfolding next pop_off push_off
  next_off p e i h = ground (arith, e, h, v.off i, v.off a)

next-IsExclusive : (a : ℕ) (m : Machine) → IsExclusive m → IsExclusive (next a m (m.pc a))
next-IsExclusive a m v =
    let p : Pc = m.pc a in
    record {
      one = next_one a m v p refl;
      held = next_held a m v p refl;
      name = next_name a m v p refl;
      mine = next_mine a m v p refl;
      calm = next_calm a m v p refl;
      off = next_off a m v p refl;
    }

run-IsExclusive : (is : List ℕ) (m : Machine) → IsExclusive m → IsExclusive (run is m)
unfolding run
run-IsExclusive [] m v = v
run-IsExclusive (i ∷ is) m v = run-IsExclusive is (next i m (m.pc i)) (next-IsExclusive i m v)

-- The lock after `initlock`, with all processors outside.
abbrev pub start : (ℕ → Cpu) → Machine
start cpus = record { lk = initlock; cpus = cpus; pc = λ i. outside }

start-IsExclusive : (cpus : ℕ → Cpu) → IsExclusive (start cpus)
unfolding initlock
start-IsExclusive cpus = record {
  one = λ i j hi hj. cc;
  held = λ i h. cc;
  name = λ i h. cc;
  mine = λ i h. cc;
  calm = λ i h. cc;
  off = λ i h. absurd (h refl);
}

-- Any number of processors call `acquire` and `release` of one lock over and over, with their
-- accesses in any order. At no time do two of them own the lock; `holding` is true of a processor
-- just while it has recorded itself as the owner, so that no panic is reached; and a processor has
-- its interrupts off from the `push_off` of `acquire` to the `pop_off` of `release`.
pub run_lem : (is : List ℕ) (cpus : ℕ → Cpu) → IsExclusive (run is (start cpus))
run_lem is cpus = run-IsExclusive is (start cpus) (start-IsExclusive cpus)
