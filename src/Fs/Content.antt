-- ===== src/Fs/Content.antt =====
-- `readi` of kernel/fs.c against the bytes of a file.
use jklnkhbv.Base.{
  ℕ, zero, suc, ◌+◌, ◌-◌, ◌*◌, ◌/◌, ◌%◌, ◌≤◌, ◌<◌, ◌≡◌, ◌≢◌, refl, sym, ap, ◌∙◌, subst, true, false,
  some, List, [], ◌∷◌, ◌++◌, length, update, update_same, ◌==◌, ltb, min, add32, u32_mod,
  if◌then◌else◌, arith, Bool-cases, inl, inr, leb, ◌&&◌,
}
use jklnkhbv.Fs.{
  Addrs, Disk, ndirect, nindirect, entry, indirect_entry, bmap_indirect, bmap, bsize, byte_at,
  chunk, reads, read_block, read_rounds, readi, to_list, overwrite,
}
use jklnkhbv.Fs.Bmap.{lookup}

-- The `n` bytes of the file from byte `off` on.
abbrev pub content : Addrs → Disk → ℕ → ℕ → List ℕ
content a d off zero = []
content a d off (suc n) =
    byte_at d (lookup a d (off / bsize)) (off % bsize) ∷ content a d (off + 1) n

-- `bmap` where the block is there.
entry_there :
    (size i : ℕ) (a : Addrs) (d : Disk) → (a i == 0) ≡ false → entry size i a d ≡ (a i, a, d)
unfolding entry
entry_there size i a d nz = rw nz refl

behind_there :
    (size i addr : ℕ) (d : Disk)
    → (d.words addr i == 0) ≡ false
    → indirect_entry size i addr d ≡ (d.words addr i, d)
unfolding indirect_entry
behind_there size i addr d nz =
    ap (λ (r : ℕ × Addrs × Disk). (r.0, record r.2 { words = update r.2.words addr r.1 }))
      (entry_there size i (d.words addr) d nz)
    ∙ ap (λ w. (d.words addr i, record d { words = w })) (update_same d.words addr)

indirect_there :
    (size i : ℕ) (a : Addrs) (d : Disk)
    → (a ndirect == 0) ≡ false
    → (d.words (a ndirect) i == 0) ≡ false
    → bmap_indirect size i a d ≡ (d.words (a ndirect) i, a, d)
unfolding bmap_indirect
indirect_there size i a d nz nz' =
    rw (entry_there size ndirect a d nz, nz)
      (ap (λ (r : ℕ × Disk). (r.0, a, r.1)) (behind_there size i (a ndirect) d nz'))

bmap_there :
    (size bn : ℕ) (a : Addrs) (d : Disk)
    → bn < ndirect + nindirect
    → lookup a d bn ≢ 0
    → bmap size bn a d ≡ some (lookup a d bn, a, d)
unfolding bmap
bmap_there size bn a d lt there = elim (Bool-cases (ltb bn ndirect)) [
  | inl low ↦ rw low (ap some (entry_there size bn a d (ground (arith, low, there))))
  | inr high ↦
      let nz : (a ndirect == 0) ≡ false = ground (arith, high, there) in
      let nz' : (d.words (a ndirect) (bn - ndirect) == 0) ≡ false =
        ground (arith, high, nz, there) in
      let in_range : ltb (bn - ndirect) nindirect ≡ true = ground (arith, lt, high) in
      rw (high, in_range, nz) (ap some (indirect_there size (bn - ndirect) a d nz nz'))
]

-- A block's part of the file.
chunk_content :
    (a : Addrs) (d : Disk) (q o m n : ℕ)
    → o + m ≤ bsize
    → chunk d (lookup a d q) o m ++ content a d (q * bsize + o + m) n
      ≡ content a d (q * bsize + o) (m + n)
unfolding chunk
chunk_content a d q o zero n h =
    let none_added : 0 + n ≡ n = omega arith in
    let at : q * bsize + o + 0 ≡ q * bsize + o = omega arith in rw (none_added, at) refl
chunk_content a d q o (suc m) n h =
    let at : (q * bsize + o) / bsize ≡ q = omega (arith, h) in
    let from : (q * bsize + o) % bsize ≡ o = omega (arith, h) in
    let ih = chunk_content a d q (o + 1) m n (omega (arith, h)) in
    let more : suc m + n ≡ suc (m + n) = omega arith in
    let on : q * bsize + o + suc m ≡ q * bsize + (o + 1) + m = omega arith in
    let on' : q * bsize + (o + 1) ≡ q * bsize + o + 1 = omega arith in
    rw (more, at, from, on)
      (ap (λ l. byte_at d (lookup a d q) o ∷ l) (ih ∙ ap (λ off. content a d off (m + n)) on'))

block_content :
    (a : Addrs) (d : Disk) (off m n : ℕ)
    → off % bsize + m ≤ bsize
    → chunk d (lookup a d (off / bsize)) (off % bsize) m ++ content a d (off + m) n
      ≡ content a d off (m + n)
block_content a d off m n h =
    let split : off / bsize * bsize + off % bsize ≡ off = omega arith in
    subst
      (λ o.
        chunk d (lookup a d (off / bsize)) (off % bsize) m ++ content a d (o + m) n
        ≡ content a d o (m + n))
      split (chunk_content a d (off / bsize) (off % bsize) m n h)

length-chunk : (d : Disk) (b o m : ℕ) → length (chunk d b o m) ≡ m
unfolding chunk
length-chunk d b o zero = refl
length-chunk d b o (suc m) = omega (arith, length-chunk d b (o + 1) m)

overwrite_step :
    (n x : ℕ) (bs out : List ℕ) → overwrite (suc n) bs (x ∷ out) ≡ x ∷ overwrite n bs out
unfolding overwrite
overwrite_step n x [] out = refl
overwrite_step n x (b ∷ bs) out = refl

overwrite_end : (bs cs : List ℕ) → overwrite (length bs) cs bs ≡ bs ++ cs
unfolding overwrite
overwrite_end [] [] = refl
overwrite_end [] (c ∷ cs) = refl
overwrite_end (b ∷ bs) cs =
    overwrite_step (length bs) b cs bs ∙ ap (λ l. b ∷ l) (overwrite_end bs cs)

pub overwrite_start : (bs : List ℕ) → overwrite 0 bs [] ≡ bs
unfolding overwrite
overwrite_start [] = refl
overwrite_start (b ∷ bs) = refl

-- Bytes that are put behind those before.
overwrite-append :
    (dst : ℕ) (bs cs out : List ℕ)
    → overwrite (dst + length bs) cs (overwrite dst bs out) ≡ overwrite dst (bs ++ cs) out
unfolding overwrite
overwrite-append dst [] cs out =
    let none_before : dst + 0 ≡ dst = omega arith in ap (λ n. overwrite n cs out) none_before
overwrite-append zero (b ∷ bs) cs [] =
    let more : 0 + suc (length bs) ≡ suc (length bs) = omega arith in
    ap (λ n. overwrite n cs (b ∷ bs)) more ∙ overwrite_end (b ∷ bs) cs
overwrite-append zero (b ∷ bs) cs (x ∷ out) =
    let more : 0 + suc (length bs) ≡ suc (0 + length bs) = omega arith in
    ap (λ n. overwrite n cs (b ∷ overwrite 0 bs out)) more
    ∙ overwrite_step (0 + length bs) b cs (overwrite 0 bs out)
    ∙ ap (λ l. b ∷ l) (overwrite-append zero bs cs out)
overwrite-append (suc dst) (b ∷ bs) cs [] =
    let more : suc dst + suc (length bs) ≡ suc (dst + suc (length bs)) = omega arith in
    ap (λ n. overwrite n cs (0 ∷ overwrite dst (b ∷ bs) [])) more
    ∙ overwrite_step (dst + suc (length bs)) 0 cs (overwrite dst (b ∷ bs) [])
    ∙ ap (λ l. 0 ∷ l) (overwrite-append dst (b ∷ bs) cs [])
overwrite-append (suc dst) (b ∷ bs) cs (x ∷ out) =
    let more : suc dst + suc (length bs) ≡ suc (dst + suc (length bs)) = omega arith in
    ap (λ n. overwrite n cs (x ∷ overwrite dst (b ∷ bs) out)) more
    ∙ overwrite_step (dst + suc (length bs)) x cs (overwrite dst (b ∷ bs) out)
    ∙ ap (λ l. x ∷ l) (overwrite-append dst (b ∷ bs) cs out)

-- Every block of the first `length` bytes is there.
abbrev pub HasNoHoles : ℕ → Addrs → Disk → Type 0
HasNoHoles length a d =
    (bn : ℕ) → bn * bsize < length → (bn < ndirect + nindirect) × (lookup a d bn ≢ 0)

module _ (size length : ℕ) (a : Addrs) (d : Disk) (there : HasNoHoles length a d) where
  rounds_lem :
      (fuel n tot off dst : ℕ) (out : List ℕ)
      → tot ≤ n
      → n - tot < fuel
      → off + (n - tot) ≤ length
      → read_rounds to_list size fuel n tot off dst a d out
        ≡ reads n a d (overwrite dst (content a d off (n - tot)) out)
  unfolding read_rounds read_block overwrite
  rounds_lem zero n tot off dst out le lt fits = absurd (omega (arith, lt))
  rounds_lem (suc fuel) n tot off dst out le lt fits = elim (Bool-cases (ltb tot n)) [
    | inr stop ↦
        let last : n ≡ tot = ground (arith, le, stop) in
        let empty : n - tot ≡ 0 = omega (arith, last) in rw (stop, empty) (rw last refl)
    | inl going ↦
        let more : tot < n = ground (arith, going) in
        let m : ℕ = min (n - tot) (bsize - off % bsize) in
        let part : (0 < m) × (m ≤ n - tot) × (off % bsize + m ≤ bsize) = grind (arith, more) in
        let here = there (off / bsize) (omega (arith, more, fits)) in
        let nz : (lookup a d (off / bsize) == 0) ≡ false = ground (arith, here.1) in
        let bytes = chunk d (lookup a d (off / bsize)) (off % bsize) m in
        let rest =
          rounds_lem fuel n (tot + m) (off + m) (dst + m) (overwrite dst bytes out)
            (omega (arith, part, le)) (omega (arith, part, lt)) (omega (arith, part, fits)) in
        let left : n - tot ≡ m + (n - (tot + m)) = omega (arith, part) in
        rw (going, bmap_there size (off / bsize) a d here.0 here.1, nz)
          (rest
            ∙ ap (reads n a d) (
                ap
                  (λ c.
                    overwrite (dst + c) (content a d (off + m) (n - (tot + m)))
                      (overwrite dst bytes out))
                  (sym (length-chunk d _ _ m))
                ∙ overwrite-append dst bytes (content a d (off + m) (n - (tot + m))) out
                ∙ ap (λ l. overwrite dst l out)
                    (block_content a d off m (n - (tot + m)) part.2
                      ∙ ap (content a d off) (sym left))))
  ]

  -- For a file without holes of less than 2 ^ 32 bytes, whose size is `length`, and a buffer of the
  -- kernel, `readi` of `n` bytes from `off` on puts the file's bytes from there up to `off + n` or
  -- the end of the file in place `dst` of the buffer and behind it, in order, and returns their
  -- number; it allocates no block and changes none. It delivers nothing where `off` is behind the
  -- end or `off + n` overflows.
  pub readi_lem :
      (dst off n : ℕ) (out : List ℕ)
      → length < u32_mod
      → n < u32_mod
      → let k = if leb off length && ltb (off + n) u32_mod then min n (length - off) else 0 in
        readi to_list size length a d dst off n out
        ≡ reads k a d (overwrite dst (content a d off k) out)
  unfolding readi overwrite
  readi_lem dst off n out small small_n = elim (Bool-cases (ltb length off)) [
    | inl past ↦
        let out_of : leb off length ≡ false = ground (arith, past) in rw (past, out_of) refl
    | inr inside ↦
        let in_file : leb off length ≡ true = ground (arith, inside) in
        elim (Bool-cases (ltb (off + n) u32_mod)) [
          | inr wraps ↦
              let over : ltb (add32 off n) off ≡ true =
                ground (arith, wraps, in_file, small, small_n) in
              rw (inside, in_file, wraps, over) refl
          | inl fine ↦
              let same : add32 off n ≡ off + n = ground (arith, fine) in
              let over : ltb (off + n) off ≡ false = ground arith in
              let k : ℕ = if ltb length (off + n) then length - off else n in
              let same_k : k ≡ min n (length - off) = grind (arith, in_file) in
              let all : k - 0 ≡ k = omega arith in
              let run =
                rounds_lem (suc k) k 0 off dst out (omega arith) (omega arith)
                  (grind (arith, in_file)) in
              rw (inside, in_file, fine, same, over)
                (subst
                  (λ c.
                    read_rounds to_list size (suc k) k 0 off dst a d out
                    ≡ reads c a d (overwrite dst (content a d off c) out))
                  same_k (run ∙ ap (λ c. reads k a d (overwrite dst (content a d off c) out)) all))
        ]
  ]
