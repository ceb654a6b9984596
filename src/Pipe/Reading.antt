-- ===== src/Pipe/Reading.antt =====
-- `piperead` of kernel/pipe.c against a queue of bytes.
use jklnkhbv.Base.{
  ℕ, zero, suc, ◌+◌, ◌<◌, ◌≡◌, ◌≢◌, ◌⊎◌, refl, sym, ap, ◌∙◌, Bool, true, false, List, [], ◌∷◌, ◌++◌,
  length, ◌&&◌, arith, subst, Bool-cases, inl, inr,
}
use jklnkhbv.Proc.Services.{Services}
use jklnkhbv.Pipe.{Pipe, is_empty, get, Read, reads, fails, starves, read_loop, piperead}
use jklnkhbv.Pipe.Ring.{IsPipe, contents, contents_dry, get_lem}

cons_ne : (b : ℕ) (bs : List ℕ) → b ∷ bs ≢ []
cons_ne b bs e = cc

module _ {M : Type 0} (sv : Services M) (table : ℕ) where
  -- The bytes are copied to the user's memory from `addr` on, which takes `m` to `m'`.
  abbrev pub Delivered : ℕ → List ℕ → M → M → Type 0
  Delivered addr [] m m' = m' ≡ m
  Delivered addr (b ∷ bs) m m' =
      ((sv.copyout table addr (b ∷ []) m).0 ≡ true)
      × Delivered (addr + 1) bs (sv.copyout table addr (b ∷ []) m).1 m'

  -- What the loop comes to: `bs` are delivered, until the pipe is empty or `left` bytes are read;
  -- or the copy of the byte behind them fails, and that byte is lost.
  abbrev pub Taken : ℕ → ℕ → ℕ → Pipe → M → List ℕ → ℕ × Pipe × M → Type 0
  Taken addr left i p m bs (j, p', m') =
      IsPipe p'
      × (j ≡ i + length bs)
      × (((contents p ≡ bs ++ contents p')
            × Delivered (addr + i) bs m m'
            × ((j ≡ i + left) ⊎ ((j < i + left) × (contents p' ≡ []))))
          ⊎ ((lost : ℕ) × (m1 : M) × (contents p ≡ bs ++ lost ∷ contents p')
              × Delivered (addr + i) bs m m1
              × (sv.copyout table (addr + j) (lost ∷ []) m1 ≡ (false, m'))
              × (j < i + left)))

  module _ (addr left i : ℕ) (p : Pipe) (m : M) where
    abbrev round : ℕ × Pipe × M
    round = read_loop sv table addr (suc left) i p m

    abbrev copied : Bool × M
    copied = sv.copyout table (addr + i) ((get p).0 ∷ []) m

    runs_dry : is_empty p ≡ true → round ≡ (i, p, m)
    unfolding read_loop
    runs_dry e = rw (e, read_loop) refl

    goes_on :
        is_empty p ≡ false
        → copied.0 ≡ true
        → round ≡ read_loop sv table addr left (i + 1) (get p).1 copied.1
    unfolding read_loop
    goes_on e ok = rw (e, read_loop) (rw ok refl)

    loses : is_empty p ≡ false → copied.0 ≡ false → round ≡ (i, (get p).1, copied.1)
    unfolding read_loop
    loses e bad = rw (e, read_loop) (rw bad refl)

    next_addr :
        (bs : List ℕ) (m1 m' : M)
        → Delivered (addr + (i + 1)) bs m1 m'
        → Delivered (addr + i + 1) bs m1 m'
    next_addr bs m1 m' h = subst (λ a. Delivered a bs m1 m') (omega arith) h

    prepend :
        (bs : List ℕ) (r : ℕ × Pipe × M)
        → contents p ≡ (get p).0 ∷ contents (get p).1
        → copied.0 ≡ true
        → Taken addr left (i + 1) (get p).1 copied.1 bs r
        → Taken addr (suc left) i p m ((get p).0 ∷ bs) r
    prepend bs (j, p', m') e ok h = (
      h.0,
      omega (arith, h.1),
      elim h.2 [
        | inl (c, d, stop) ↦ inl (
          e ∙ ap (λ t. (get p).0 ∷ t) c,
          (ok, next_addr bs copied.1 m' d),
          elim stop [ inl full ↦ inl (omega arith) | inr (lt, dry) ↦ inr (omega arith, dry) ],
        )
        | inr (lost, m1, c, d, bad, lt) ↦ inr (
          lost,
          m1,
          e ∙ ap (λ t. (get p).0 ∷ t) c,
          (ok, next_addr bs copied.1 m1 d),
          bad,
          omega arith,
        )
      ],
    )

  read_loop_lem :
      (addr left i : ℕ) (p : Pipe) (m : M)
      → IsPipe p
      → (bs : List ℕ) × Taken addr left i p m bs (read_loop sv table addr left i p m)
  unfolding read_loop
  read_loop_lem addr zero i p m v = ([], (v, omega arith, inl (refl, refl, inl (omega arith))))
  read_loop_lem addr (suc left) i p m v = elim (Bool-cases (is_empty p)) [
    | inl dry ↦ (
      [],
      subst (Taken addr (suc left) i p m []) (sym (runs_dry addr left i p m dry))
          (v, omega arith, inl (refl, refl, inr (omega arith, contents_dry p v dry))),
    )
    | inr some_left ↦
        let (v1, e) = get_lem p v some_left in
        elim (Bool-cases (copied addr left i p m).0) [
          | inl ok ↦
              let (bs, h) =
                read_loop_lem addr left (i + 1) (get p).1 (copied addr left i p m).1 v1 in
              (
                (get p).0 ∷ bs,
                subst (Taken addr (suc left) i p m ((get p).0 ∷ bs))
                    (sym (goes_on addr left i p m some_left ok))
                    (prepend addr left i p m bs
                      (read_loop sv table addr left (i + 1) (get p).1 (copied addr left i p m).1) e
                      ok h),
              )
          | inr bad ↦ (
            [],
            subst (Taken addr (suc left) i p m []) (sym (loses addr left i p m some_left bad)) (
              v1,
              omega arith,
              inr ((get p).0, m, e, refl, (λ q. (bad q, (copied addr left i p m).1)), omega arith),
            ),
          )
        ]
  ]

  some_or_shut :
      (p : Pipe)
      → IsPipe p
      → (is_empty p && p.writeopen) ≡ false
      → (contents p ≢ []) ⊎ (p.writeopen ≡ false)
  some_or_shut p v h = elim (Bool-cases (is_empty p)) [
    | inl dry ↦ inr (ground (arith, h, dry))
    | inr some_left ↦ inl (λ e.
        let (_, c) = get_lem p v some_left in
        absurd (cons_ne ((get p).0) (contents (get p).1) (sym c ∙ e)))
  ]

  -- What a pass of `piperead` comes to.
  abbrev pub ReadOutcome : Bool → ℕ → ℕ → Pipe → M → Read M → Type 0
  ReadOutcome dead addr n p m (reads j p' m') =
      ((contents p ≢ []) ⊎ (p.writeopen ≡ false))
      × ((bs : List ℕ) × Taken addr n 0 p m bs (j, p', m'))
  ReadOutcome dead addr n p m fails = (contents p ≡ []) × (p.writeopen ≡ true) × (dead ≡ true)
  ReadOutcome dead addr n p m starves = (contents p ≡ []) × (p.writeopen ≡ true) × (dead ≡ false)

  -- A pass of `piperead` of a pipe fails or sleeps, by whether the caller is killed, exactly if the
  -- pipe is empty and its writing end is open. Else it takes bytes from the front of the pipe's
  -- contents and copies them in order to the user's address, until it has `n`, or the pipe is
  -- empty, or a copy fails, and returns how many were copied. Where a copy fails its byte is lost.
  pub piperead_lem :
      (dead : Bool) (addr n : ℕ) (p : Pipe) (m : M)
      → IsPipe p
      → ReadOutcome dead addr n p m (piperead sv table dead addr n p m)
  unfolding piperead
  piperead_lem dead addr n p m v = elim (Bool-cases (is_empty p && p.writeopen)) [
    | inl waits ↦ elim (Bool-cases dead) [
      | inl d ↦
          let e : piperead sv table dead addr n p m ≡ fails = ground (arith, waits, d) in
          subst (ReadOutcome dead addr n p m) (sym e)
            (contents_dry p v (ground (arith, waits)), ground (arith, waits), d)
      | inr d ↦
          let e : piperead sv table dead addr n p m ≡ starves = ground (arith, waits, d) in
          subst (ReadOutcome dead addr n p m) (sym e)
            (contents_dry p v (ground (arith, waits)), ground (arith, waits), d)
    ]
    | inr goes ↦
        let r = read_loop sv table addr n 0 p m in
        let e : piperead sv table dead addr n p m ≡ reads r.0 r.1 r.2 = ground (arith, goes) in
        subst (ReadOutcome dead addr n p m) (sym e)
          (some_or_shut p v goes, read_loop_lem addr n 0 p m v)
  ]
