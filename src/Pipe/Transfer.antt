-- ===== src/Pipe/Transfer.antt =====
-- `pipewrite` and `piperead` of kernel/pipe.c against a queue of bytes.
use jklnkhbv.Base.{
  ℕ, zero, suc, ◌+◌, ◌<◌, ◌≡◌, ◌⊎◌, refl, sym, ap, ◌∙◌, Bool, true, false, not, Option, none, some,
  List, [], ◌∷◌, ◌++◌, length, ◌||◌, arith, subst, Bool-cases, Option-cases, inl, inr,
}
use mathlib.Core.List.{append_assoc, append-nil}
use jklnkhbv.Pipe.{Pipe, pipesize, is_full, put, Write, wrote, refused, blocks, pipewrite}
use jklnkhbv.Pipe.Ring.{IsPipe, contents, held, full-held, put_lem, length-queue}

-- These bytes stand in the user's memory from `addr` on.
abbrev pub Stored : (ℕ → Option ℕ) → ℕ → List ℕ → Type 0
Stored copyin addr [] = Unit
Stored copyin addr (b ∷ bs) = (copyin addr ≡ some b) × Stored copyin (addr + 1) bs

module _ (copyin : ℕ → Option ℕ) (dead : Bool) (addr : ℕ) where
  -- What `left` bytes from the index `i` on come to, when `bs` are the bytes that were moved.
  abbrev pub Written : ℕ → ℕ → Pipe → List ℕ → Write → Type 0
  Written left i p bs (wrote j p') =
      IsPipe p'
      × (contents p' ≡ contents p ++ bs)
      × Stored copyin (addr + i) bs
      × (j ≡ i + length bs)
      × ((j ≡ i + left) ⊎ ((j < i + left) × (copyin (addr + j) ≡ none)))
  Written left i p bs (refused p') =
      IsPipe p'
      × (contents p' ≡ contents p ++ bs)
      × Stored copyin (addr + i) bs
      × (length bs < left)
      × ((p.readopen ≡ false) ⊎ (dead ≡ true))
  Written left i p bs (blocks j p') =
      IsPipe p'
      × (contents p' ≡ contents p ++ bs)
      × Stored copyin (addr + i) bs
      × (j ≡ i + length bs)
      × (j < i + left)
      × (length (contents p') ≡ pipesize)

  joined :
      (p p1 : Pipe) (b : ℕ) (bs : List ℕ) (p' : Pipe)
      → contents p1 ≡ contents p ++ b ∷ []
      → contents p' ≡ contents p1 ++ bs
      → contents p' ≡ contents p ++ b ∷ bs
  joined p p1 b bs p' e h = h ∙ ap (λ c. c ++ bs) e ∙ append_assoc (contents p) (b ∷ []) bs

  next_addr :
      (i : ℕ) (bs : List ℕ) → Stored copyin (addr + (i + 1)) bs → Stored copyin (addr + i + 1) bs
  next_addr i bs h = subst (λ a. Stored copyin a bs) (omega arith) h

  put_open : (ch : ℕ) (p : Pipe) → (put ch p).readopen ≡ p.readopen
  unfolding put
  put_open ch p = refl

  -- The four cases of a round.
  module _ (left i : ℕ) (p : Pipe) where
    abbrev round : Write
    round = pipewrite copyin dead addr (suc left) i p

    halts : (not p.readopen || dead) ≡ true → round ≡ refused p
    unfolding pipewrite
    halts stop = rw (stop, pipewrite) refl

    sleeps : (not p.readopen || dead) ≡ false → is_full p ≡ true → round ≡ blocks i p
    unfolding pipewrite
    sleeps go_on full = rw (go_on, full, pipewrite) refl

    stops :
        (not p.readopen || dead) ≡ false
        → is_full p ≡ false
        → copyin (addr + i) ≡ none
        → round ≡ wrote i p
    unfolding pipewrite
    stops go_on room bad = rw (go_on, room, bad, pipewrite) refl

    moves :
        (ch : ℕ)
        → (not p.readopen || dead) ≡ false
        → is_full p ≡ false
        → copyin (addr + i) ≡ some ch
        → round ≡ pipewrite copyin dead addr left (i + 1) (put ch p)
    unfolding pipewrite
    moves ch go_on room e = rw (go_on, room, e, pipewrite) refl

  prepend :
      (left i : ℕ) (p p1 : Pipe) (b : ℕ) (bs : List ℕ) (w : Write)
      → contents p1 ≡ contents p ++ b ∷ []
      → p1.readopen ≡ p.readopen
      → copyin (addr + i) ≡ some b
      → Written left (i + 1) p1 bs w
      → Written (suc left) i p (b ∷ bs) w
  prepend left i p p1 b bs (wrote j p') e o c h = (
    h.0,
    joined p p1 b bs p' e h.1,
    (c, next_addr i bs h.2),
    omega (arith, h.3),
    elim h.4 [ inl full ↦ inl (omega arith) | inr (lt, bad) ↦ inr (omega arith, bad) ],
  )
  prepend left i p p1 b bs (refused p') e o c h = (
    h.0,
    joined p p1 b bs p' e h.1,
    (c, next_addr i bs h.2),
    omega (arith, h.3),
    elim h.4 [ inl shut ↦ inl (sym o ∙ shut) | inr d ↦ inr d ],
  )
  prepend left i p p1 b bs (blocks j p') e o c h = (
    h.0,
    joined p p1 b bs p' e h.1,
    (c, next_addr i bs h.2),
    omega (arith, h.3),
    omega (arith, h.4),
    h.5,
  )

  -- `pipewrite` of `left` bytes to a pipe, from the index `i` on, moves some of the bytes at the
  -- user's address to the end of the pipe's contents, in order, and then: returns the index behind
  -- them, at the end or where the user's memory cannot be read; fails, as the reading end is closed
  -- or the caller is killed; or sleeps with more to write, as the pipe holds 512 bytes.
  pub pipewrite_lem :
      (left i : ℕ) (p : Pipe)
      → IsPipe p
      → (bs : List ℕ) × Written left i p bs (pipewrite copyin dead addr left i p)
  unfolding pipewrite
  pipewrite_lem zero i p v =
      ([], (v, sym (append-nil (contents p)), tt, omega arith, inl (omega arith)))
  pipewrite_lem (suc left) i p v = elim (Bool-cases (not p.readopen || dead)) [
    | inl stop ↦ (
      [],
      subst (Written (suc left) i p []) (sym (halts left i p stop))
          (v, sym (append-nil (contents p)), tt, omega arith, ground (arith, stop)),
    )
    | inr go_on ↦ elim (Bool-cases (is_full p)) [
      | inl full ↦
          let held_all : held p ≡ pipesize = ground (arith, full, full-held p v) in
          (
            [],
            subst (Written (suc left) i p []) (sym (sleeps left i p go_on full)) (
              v,
              sym (append-nil (contents p)),
              tt,
              omega arith,
              omega arith,
              length-queue p.cells (held p) p.nread ∙ held_all,
            ),
          )
      | inr room ↦ elim (Option-cases (copyin (addr + i))) [
        | inl bad ↦ (
          [],
          subst (Written (suc left) i p []) (sym (stops left i p go_on room bad))
              (v, sym (append-nil (contents p)), tt, omega arith, inr (omega arith, bad)),
        )
        | inr (ch, e) ↦
            let (v1, c1) = put_lem p v ch room in
            let (bs, h) = pipewrite_lem left (i + 1) (put ch p) v1 in
            (
              ch ∷ bs,
              subst (Written (suc left) i p (ch ∷ bs)) (sym (moves left i p ch go_on room e)) (
                  prepend left i p (put ch p) ch bs
                    (pipewrite copyin dead addr left (i + 1) (put ch p)) c1 (put_open ch p) e h),
            )
      ]
    ]
  ]
