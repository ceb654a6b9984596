-- ===== src/Spinlocks.antt =====
-- Spin locks and the nesting of disabled interrupts, of kernel/spinlock.c.
pub mod Nesting
pub mod Exclusion
mod Examples
use jklnkhbv.Base.{
  ℕ, ◌+◌, ◌-◌, Bool, true, false, Option, none, some, List, [], ◌∷◌, update, ◌==◌, ◌&&◌, same,
  if◌then◌else◌,
}

-- The part of `struct cpu` that is used here, and whether the interrupts of that processor are on.
pub record Cpu : Type 0 where
  pub noff : ℕ
  pub intena : Bool
  pub intr : Bool

unfoldable pub push_off : Cpu → Cpu
push_off c = record {
  noff = c.noff + 1;
  intena = if c.noff == 0 then c.intr else c.intena;
  intr = false;
}

-- `none` is a panic.
unfoldable pub pop_off : Cpu → Option Cpu
pop_off c =
    if c.intr
    then none
    else if c.noff == 0
    then none
    else some (record c {
      noff = c.noff - 1;
      intr = if c.noff - 1 == 0 && c.intena then true else c.intr;
    })

pub record Spinlock : Type 0 where
  pub locked : Bool
  pub cpu : Option ℕ

unfoldable pub initlock : Spinlock
initlock = record { locked = false; cpu = none }

-- Where a processor is in `acquire` and `release` of one lock.
pub data Pc : Type 0 where
  outside : Pc
  entering : Pc
  comparing : Pc
  spinning : Pc
  taken : Pc
  inside : Pc
  checking : Pc
  releasing : Pc
  leaving : Pc
  unlocked : Pc
  panicked : Pc

-- One lock, and the processors by number.
pub record Machine : Type 0 where
  pub lk : Spinlock
  pub cpus : ℕ → Cpu
  pub pc : ℕ → Pc

abbrev pub goes : ℕ → Pc → Machine → Machine
goes i p m = record m { pc = update m.pc i p }

abbrev pub back : ℕ → Option Cpu → Machine → Machine
back i none m = goes i panicked m
back i (some c) m = goes i outside (record m { cpus = update m.cpus i c })

-- The next access of processor `i` to the lock or to its own `struct cpu`: those of `acquire`, then
-- those of `release`. The two reads of `holding` are two accesses.
unfoldable pub next : ℕ → Machine → Pc → Machine
next i m outside = goes i entering (record m { cpus = update m.cpus i (push_off (m.cpus i)) })
next i m entering = goes i (if m.lk.locked then comparing else spinning) m
next i m comparing = goes i (if same m.lk.cpu (some i) then panicked else spinning) m
next i m spinning =
    goes i (if m.lk.locked then spinning else taken)
      (record m { lk = record m.lk { locked = true } })
next i m taken = goes i inside (record m { lk = record m.lk { cpu = some i } })
next i m inside = goes i (if m.lk.locked then checking else panicked) m
next i m checking = goes i (if same m.lk.cpu (some i) then releasing else panicked) m
next i m releasing = goes i leaving (record m { lk = record m.lk { cpu = none } })
next i m leaving = goes i unlocked (record m { lk = record m.lk { locked = false } })
next i m unlocked = back i (pop_off (m.cpus i)) m
next i m panicked = m

-- The processors named take their steps in this order.
unfoldable pub run : List ℕ → Machine → Machine
run [] m = m
run (i ∷ is) m = run is (next i m (m.pc i))
