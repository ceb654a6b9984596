-- ===== src/Spinlocks/Nesting.antt =====
-- `push_off` and `pop_off` of kernel/spinlock.c undo each other.
use jklnkhbv.Base.{
  ◌-◌, ◌<◌, ◌≡◌, refl, ◌∙◌, true, false, Option, some, ◌==◌, ◌&&◌, ◌>>=◌, if◌then◌else◌, arith,
}
use jklnkhbv.Spinlocks.{Cpu, push_off, pop_off}

-- A sequence of calls that are matched: nothing, or a `push_off`, matched calls, its `pop_off` and
-- matched calls.
pub data Matched : Type 0 where
  nothing : Matched
  section : Matched → Matched → Matched

unfoldable pub calls : Matched → Cpu → Option Cpu
calls nothing c = some c
calls (section inner rest) c = calls inner (push_off c) >>= λ c1. pop_off c1 >>= λ c2. calls rest c2

-- Interrupts are off within a `push_off`.
abbrev pub IsOff : Cpu → Type 0
IsOff c = 0 < c.noff → c.intr ≡ false

-- The same nesting and interrupts, and within a `push_off` the same to restore.
pub record Same (c c' : Cpu) : Type 0 where
  pub noff : c'.noff ≡ c.noff
  pub intr : c'.intr ≡ c.intr
  pub intena : 0 < c.noff → c'.intena ≡ c.intena

pop-push :
    (c c1 : Cpu) → IsOff c → Same (push_off c) c1 → (c2 : Cpu) × (pop_off c1 ≡ some c2) × Same c c2
unfolding push_off pop_off
pop-push c c1 off s =
    let shut : c1.intr ≡ false = s.intr in
    let deep : (c1.noff == 0) ≡ false = ground (arith, s.noff) in
    let kept = s.intena (omega arith) in
    (
      record c1 {
        noff = c1.noff - 1;
        intr = if c1.noff - 1 == 0 && c1.intena then true else c1.intr;
      },
      rw (shut, deep) refl,
      record {
        noff = omega (arith, s.noff);
        intr = ground (arith, s.noff, kept, shut, off);
        intena = λ lt. ground (arith, kept, lt);
      },
    )

-- Matched calls of `push_off` and `pop_off` on a processor whose interrupts are off within a
-- `push_off` do not panic, and leave the nesting and the interrupts as they were. Within a
-- `push_off` they leave what its `pop_off` is to restore, too.
pub calls_lem : (t : Matched) (c : Cpu) → IsOff c → (c' : Cpu) × (calls t c ≡ some c') × Same c c'
unfolding calls
calls_lem nothing c off = (c, refl, record { noff = refl; intr = refl; intena = λ lt. refl })
calls_lem (section inner rest) c off =
    let (c1, e1, s1) = calls_lem inner (push_off c) (unfold push_off in λ lt. refl) in
    let (c2, e2, s2) = pop-push c c1 off s1 in
    let off2 : IsOff c2 = λ lt. s2.intr ∙ off (omega (arith, lt, s2.noff)) in
    let (c3, e3, s3) = calls_lem rest c2 off2 in
    (
      c3,
      rw (e1, e2) e3,
      record {
        noff = s3.noff ∙ s2.noff;
        intr = s3.intr ∙ s2.intr;
        intena = λ lt. s3.intena (omega (arith, lt, s2.noff)) ∙ s2.intena lt;
      },
    )
