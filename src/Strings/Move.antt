-- ===== src/Strings/Move.antt =====
-- `memset` and `memmove` of kernel/string.c.
use jklnkhbv.Base.{
  ℕ, zero, suc, ◌+◌, ◌-◌, ◌≤◌, ◌≡◌, ◌⊎◌, ◌∙◌, update, ◌==◌, ltb, leb, ◌&&◌, if◌then◌else◌, arith,
  Bool-cases, inl, inr,
}
use jklnkhbv.Strings.{Bytes, memset, move_down, move_up, memmove}

-- `n` bytes from `src` on, put at `dst`.
abbrev pub moved : ℕ → ℕ → ℕ → Bytes → Bytes
moved dst src n mem a = if leb dst a && ltb a (dst + n) then mem (src + (a - dst)) else mem a

-- `memset` sets `n` bytes from `dst` on to `c`, and no other.
pub memset_lem :
    (dst c n : ℕ) (mem : Bytes) (a : ℕ)
    → memset dst c n mem a ≡ (if leb dst a && ltb a (dst + n) then c else mem a)
unfolding memset
memset_lem dst c zero mem a = ground arith
memset_lem dst c (suc n) mem a = ground (arith, memset_lem (dst + 1) c n (update mem dst c) a)

move_up_lem :
    (d s n : ℕ) (mem : Bytes) (a : ℕ)
    → (d ≤ s) ⊎ (s + n ≤ d)
    → move_up d s n mem a ≡ moved d s n mem a
unfolding move_up
move_up_lem d s zero mem a h = ground arith
move_up_lem d s (suc n) mem a h =
    let apart : (d + 1 ≤ s + 1) ⊎ (s + 1 + n ≤ d + 1) = ground (arith, h) in
    let ih = move_up_lem (d + 1) (s + 1) n (update mem d (mem s)) a apart in ih ∙ ground arith

move_down_lem :
    (d s n : ℕ) (mem : Bytes) (a : ℕ)
    → n ≤ s
    → s ≤ d
    → move_down d s n mem a ≡ (if leb (d - n) a && ltb a d then mem (a + s - d) else mem a)
unfolding move_down
move_down_lem d s zero mem a le h = ground arith
move_down_lem d s (suc n) mem a le h =
    let ih =
      move_down_lem (d - 1) (s - 1) n (update mem (d - 1) (mem (s - 1))) a (omega arith)
        (omega arith) in
    ih ∙ ground arith

-- `memmove` puts `n` bytes from `src` on at `dst` as they were before, also where the two ranges
-- overlap, and changes no other byte.
pub memmove_lem :
    (dst src n : ℕ) (mem : Bytes) (a : ℕ) → memmove dst src n mem a ≡ moved dst src n mem a
unfolding memmove
memmove_lem dst src n mem a = elim (Bool-cases (n == 0)) [
  | inl none_moved ↦ rw none_moved (ground (arith, none_moved))
  | inr some_moved ↦ elim (Bool-cases (ltb src dst && ltb dst (src + n))) [
    | inl overlap ↦
        rw (some_moved, overlap)
          (move_down_lem (dst + n) (src + n) n mem a (omega arith) (ground (arith, overlap))
            ∙ ground arith)
    | inr free ↦
        rw (some_moved, free) (move_up_lem dst src n mem a (ground (arith, free, some_moved)))
  ]
]
