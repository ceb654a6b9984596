-- ===== src/Spinlocks/Examples.antt =====
-- Tests of the spin lock, and concrete inputs for its theorems.
use jklnkhbv.Base.{ℕ, ◌≡◌, refl, true, false, List, [], ◌∷◌}
use jklnkhbv.Spinlocks.{Cpu, inside, spinning, outside, next, run, push_off, pop_off, initlock}
use jklnkhbv.Spinlocks.Exclusion.{IsExclusive, start, run_lem}

abbrev cpu : Cpu
cpu = record { noff = 0; intena = false; intr = true }

abbrev cpus : ℕ → Cpu
cpus i = cpu

-- Processor 0 takes the lock while processor 1 waits.
abbrev schedule : List ℕ
schedule = 0 ∷ 0 ∷ 1 ∷ 0 ∷ 1 ∷ 0 ∷ 1 ∷ 1 ∷ []

first_inside : (run schedule (start cpus)).pc 0 ≡ inside
unfolding run next initlock
first_inside = refl

second_spins : (run schedule (start cpus)).pc 1 ≡ spinning
unfolding run next initlock
second_spins = refl

-- Processor 0 goes on to the end of `release`, and processor 1 takes the lock.
abbrev handed_over : List ℕ
handed_over = 0 ∷ 0 ∷ 1 ∷ 0 ∷ 1 ∷ 0 ∷ 1 ∷ 1 ∷ 0 ∷ 0 ∷ 0 ∷ 0 ∷ 0 ∷ 1 ∷ 1 ∷ []

first_outside : (run handed_over (start cpus)).pc 0 ≡ outside
unfolding run next initlock push_off pop_off
first_outside = refl

second_inside : (run handed_over (start cpus)).pc 1 ≡ inside
unfolding run next initlock push_off pop_off
second_inside = refl

run_lem_example : IsExclusive (run schedule (start cpus))
run_lem_example = run_lem schedule cpus
