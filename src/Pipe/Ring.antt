-- ===== src/Pipe/Ring.antt =====
-- The ring of kernel/pipe.c, whose two counters wrap at 32 bits, against a list of bytes.
use jklnkhbv.Base.{
  ℕ, zero, suc, ◌-◌, ◌%◌, ◌≤◌, ◌<◌, ◌≡◌, ◌≢◌, refl, ap, ◌∙◌, true, false, List, [], ◌∷◌, ◌++◌,
  update, update_self, update_ne, add32, sub32, u32_mod, length, ◌==◌, arith,
}
use jklnkhbv.Pipe.{Pipe, pipesize, new_pipe, is_full, is_empty, put, get}

-- The `n` bytes from the counter `r` on.
pub queue : (ℕ → ℕ) → ℕ → ℕ → List ℕ
queue cells zero r = []
queue cells (suc n) r = cells (r % pipesize) ∷ queue cells n (add32 r 1)

abbrev pub held : Pipe → ℕ
held p = sub32 p.nwrite p.nread

-- The bytes in the pipe, the oldest first.
abbrev pub contents : Pipe → List ℕ
contents p = queue p.cells (held p) p.nread

pub record IsPipe (p : Pipe) : Type 0 where
  pub read_word : p.nread < u32_mod
  pub write_word : p.nwrite < u32_mod
  pub bounded : held p ≤ pipesize

pub length-queue : (cells : ℕ → ℕ) (n r : ℕ) → length (queue cells n r) ≡ n
unfolding queue
length-queue cells zero r = refl
length-queue cells (suc n) r = ap suc (length-queue cells n (add32 r 1))

-- A write behind the last byte is not seen.
queue-update :
    (cells : ℕ → ℕ) (n r ch g w : ℕ)
    → n ≤ g
    → g < pipesize
    → r < u32_mod
    → w ≡ add32 r g
    → queue (update cells (w % pipesize) ch) n r ≡ queue cells n r
unfolding queue
queue-update cells zero r ch g w le lt h e = refl
queue-update cells (suc n) r ch g w le lt h e =
    let apart : w % pipesize ≢ r % pipesize = omega (arith, e) in
    let ih =
      queue-update cells n (add32 r 1) ch (g - 1) w (omega arith) (omega arith) (omega arith)
        (omega (arith, e)) in
    (λ i. update_ne cells (w % pipesize) (r % pipesize) ch apart i ∷ ih i)

queue_snoc :
    (cells : ℕ → ℕ) (n r : ℕ)
    → r < u32_mod
    → queue cells (suc n) r ≡ queue cells n r ++ cells (add32 r n % pipesize) ∷ []
unfolding queue
queue_snoc cells zero r h = ap (λ a. cells a ∷ []) (omega arith)
queue_snoc cells (suc n) r h =
    ap (λ t. cells (r % pipesize) ∷ t)
      (queue_snoc cells n (add32 r 1) (omega arith)
        ∙ ap (λ a. queue cells n (add32 r 1) ++ cells a ∷ []) (omega arith))

pub full-held : (p : Pipe) → IsPipe p → is_full p ≡ (held p == pipesize)
full-held p v = ground (arith, v.read_word, v.write_word, v.bounded)

pub empty-held : (p : Pipe) → IsPipe p → is_empty p ≡ (held p == 0)
empty-held p v = ground (arith, v.read_word, v.write_word)

pub contents_dry : (p : Pipe) → IsPipe p → is_empty p ≡ true → contents p ≡ []
unfolding queue
contents_dry p v e =
    let none_held : held p ≡ 0 = ground (arith, e, empty-held p v) in
    ap (λ n. queue p.cells n p.nread) none_held

pub new_pipe-IsPipe : (junk : ℕ → ℕ) → IsPipe (new_pipe junk) × (contents (new_pipe junk) ≡ [])
unfolding new_pipe queue
new_pipe-IsPipe junk =
    (record { read_word = omega arith; write_word = omega arith; bounded = omega arith }, refl)

module _ (p : Pipe) (v : IsPipe p) where
  -- A byte put into a pipe that is not full goes behind the others.
  pub put_lem :
      (ch : ℕ)
      → is_full p ≡ false
      → IsPipe (put ch p) × (contents (put ch p) ≡ contents p ++ ch ∷ [])
  unfolding put
  put_lem ch h =
      let room : held p < pipesize = ground (arith, h, full-held p v, v.bounded) in
      let longer : sub32 (add32 p.nwrite 1) p.nread ≡ suc (held p) =
        omega (arith, v.read_word, v.write_word) in
      let behind : p.nwrite ≡ add32 p.nread (held p) = omega (arith, v.read_word, v.write_word) in
      let cells' = update p.cells (p.nwrite % pipesize) ch in
      (
        record {
          read_word = v.read_word;
          write_word = omega arith;
          bounded = omega (arith, longer, room);
        },
        ap (λ n. queue cells' n p.nread) longer
            ∙ queue_snoc cells' (held p) p.nread v.read_word
            ∙ (λ i.
                queue-update p.cells (held p) p.nread ch (held p) p.nwrite (omega arith) room
                  v.read_word behind i
                ++ update_self p.cells (p.nwrite % pipesize) (add32 p.nread (held p) % pipesize) ch
                    (ap (λ a. a % pipesize) behind) i
                  ∷ []),
      )

  -- A byte got from a pipe that is not empty is the oldest one.
  pub get_lem :
      is_empty p ≡ false → IsPipe (get p).1 × (contents p ≡ (get p).0 ∷ contents (get p).1)
  unfolding get queue
  get_lem h =
      let some_held : 0 < held p = ground (arith, h, empty-held p v) in
      let shorter : held p ≡ suc (sub32 p.nwrite (add32 p.nread 1)) =
        omega (arith, v.read_word, v.write_word, some_held) in
      (
        record {
          read_word = omega arith;
          write_word = v.write_word;
          bounded = omega (arith, v.bounded, shorter);
        },
        ap (λ n. queue p.cells n p.nread) shorter,
      )
