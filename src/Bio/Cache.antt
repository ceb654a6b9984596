-- ===== src/Bio/Cache.antt =====
-- `bget` and `brelse` of kernel/bio.c against the list of buffers from the most to the least
-- recently used.
use jklnkhbv.Base.{
  ℕ, ◌+◌, ◌≤◌, ◌<◌, ◌≡◌, ◌≢◌, ◌⊎◌, refl, sym, ap, ◌∙◌, Bool, true, false, Option, none, some, List,
  [], ◌∷◌, ◌++◌, add32, sub32, u32_mod, All, update_self, All-left, All-right, All-append, ◌==◌,
  if◌then◌else◌, ◌>>=◌, arith, inl, inr, subst, length, length-append, Bool-cases,
}
use jklnkhbv.Locks.{releasesleep, holdingsleep}
use jklnkhbv.Bio.{
  Buf, Bcache, head, nbuf, is_block, is_free, set_buf, claim, recycle, bget_from, bget, brelse,
  push_front, unlink,
}
use jklnkhbv.Bio.Links.{IsRing, Fresh, Fresh-before, Nodup-right, unlink_lem, push_front_lem}
use jklnkhbv.Bio.Scan.{
  rev, find, IsFirst, find_lem, scan_next, scan_prev, Fresh-rev, All-rev, All-rev_back,
}

abbrev pub Has : ℕ → List ℕ → Type 0
Has b order = (xs : List ℕ) × (ys : List ℕ) × (order ≡ xs ++ b ∷ ys)

-- The ring holds the thirty buffers in this order, and no two hold the same block of a device.
-- Device 0 is that of the buffers that are not in use since the start.
pub record IsCache {B : Type 0} (c : Bcache B) (order : List ℕ) : Type 0 where
  pub ring : IsRing c.ring order
  pub few : length order ≤ nbuf
  pub buffers : All (λ b. b < nbuf) order
  pub covers : (b : ℕ) → b < nbuf → Has b order
  pub unique :
      (s t : ℕ)
      → s < nbuf
      → t < nbuf
      → (c.buf s).dev ≢ 0
      → (c.buf s).dev ≡ (c.buf t).dev
      → (c.buf s).blockno ≡ (c.buf t).blockno
      → s ≡ t

All_at : (P : ℕ → Type 0) (b : ℕ) (xs ys : List ℕ) → All P (xs ++ b ∷ ys) → P b
All_at P b [] ys h = h.0
All_at P b (x ∷ xs) ys h = All_at P b xs ys h.1

All_has : (P : ℕ → Type 0) (b : ℕ) (order : List ℕ) → Has b order → All P order → P b
All_has P b order (xs, ys, e) h = All_at P b xs ys (subst (All P) e h)

cons_same : (b x t : ℕ) (rest zs ys : List ℕ) → x ∷ zs ≡ t ∷ ys → b ∷ x ∷ rest ≡ b ∷ t ∷ rest
cons_same b x t rest zs ys e = cc

tail_eq : {x w : ℕ} {xs ws : List ℕ} → x ∷ xs ≡ w ∷ ws → xs ≡ ws
tail_eq e = cc

Has-swap : (t b x : ℕ) (zs : List ℕ) → Has t (b ∷ zs) → Has t (b ∷ x ∷ zs)
Has-swap t b x zs ([], ys, e) = ([], x ∷ zs, cc)
Has-swap t b x zs (w ∷ ws, ys, e) = (b ∷ x ∷ ws, ys, ap (λ l. b ∷ x ∷ l) (tail_eq e))

-- Taken out of the middle and put in front.
Has-front : (t b : ℕ) (xs ys : List ℕ) → Has t (xs ++ b ∷ ys) → Has t (b ∷ (xs ++ ys))
Has-front t b [] ys h = h
Has-front t b (x ∷ xs) ys ([], zs, e) =
    (b ∷ [], xs ++ ys, cons_same b x t (xs ++ ys) (xs ++ b ∷ ys) zs e)
Has-front t b (x ∷ xs) ys (w ∷ ws, zs, e) =
    let inner = Has-front t b xs ys (ws, zs, tail_eq e) in Has-swap t b x (xs ++ ys) inner

module _ {B : Type 0} where
  -- A change of one buffer that keeps its block.
  pub kept-IsCache :
      (c : Bcache B) (order : List ℕ) (b : ℕ) (x : Buf B)
      → IsCache c order
      → x.dev ≡ (c.buf b).dev
      → x.blockno ≡ (c.buf b).blockno
      → IsCache (set_buf b x c) order
  kept-IsCache c order b x v d n = record {
    ring = v.ring;
    few = v.few;
    buffers = v.buffers;
    covers = v.covers;
    unique = λ s t hs ht nz ed en.
        v.unique s t hs ht (ground (arith, nz, d)) (ground (arith, ed, d)) (ground (arith, en, n));
  }

  module _ (c : Bcache B) (order : List ℕ) (dev blockno : ℕ) (v : IsCache c order)
      (nz : dev ≢ 0) where
    abbrev wanted : ℕ → Bool
    wanted b = is_block dev blockno (c.buf b)

    abbrev free : ℕ → Bool
    free b = is_free (c.buf b)

    abbrev NotCached : Type 0
    NotCached = (b : ℕ) → b < nbuf → wanted b ≡ false

    -- What `bget` comes to.
    abbrev pub GetOutcome : Option (ℕ × Bcache B) → Type 0
    GetOutcome none = NotCached × ((b : ℕ) → b < nbuf → free b ≡ false)
    GetOutcome (some (b, c')) =
        (b < nbuf)
        × IsCache c' order
        × ((c'.buf b).dev ≡ dev)
        × ((c'.buf b).blockno ≡ blockno)
        × ((t : ℕ) → t ≢ b → c'.buf t ≡ c.buf t)
        × (((wanted b ≡ true) × (c'.buf b ≡ record (c.buf b) { refcnt = add32 (c.buf b).refcnt 1 }))
            ⊎ (NotCached
                × IsFirst free (rev order) b
                × ((c'.buf b).valid ≡ false)
                × ((c'.buf b).refcnt ≡ 1)))

    claimed-IsCache :
        (b : ℕ) → NotCached → IsCache (set_buf b (claim dev blockno (c.buf b)) c) order
    claimed-IsCache b no_other = record {
      ring = v.ring;
      few = v.few;
      buffers = v.buffers;
      covers = v.covers;
      unique = λ s t hs ht nz' ed en.
          ground (arith, no_other s hs, no_other t ht, v.unique s t hs ht, nz', ed, en);
    }

    hit_lem : (b : ℕ) → IsFirst wanted order b → b ≢ head → GetOutcome (bget_from dev blockno c b)
    unfolding bget_from
    hit_lem b (before, behind, e, hit, _) ne =
        let x : Buf B = record (c.buf b) { refcnt = add32 (c.buf b).refcnt 1 } in
        let other : (b == head) ≡ false = ground (arith, ne) in
        rw other (
          All_has (λ b. b < nbuf) b order (before, behind, e) v.buffers,
          kept-IsCache c order b x v refl refl,
          ground (arith, hit),
          ground (arith, hit),
          (λ t nt. ground (arith, nt)),
          inl (hit, update_self c.buf b b x refl),
        )

    miss_lem : NotCached → GetOutcome (bget_from dev blockno c head)
    unfolding bget_from recycle
    miss_lem no_other =
        subst (λ o. GetOutcome (o >>= recycle dev blockno c))
          (sym (scan_prev c.ring free order v.ring v.few))
          (elim (find_lem free (rev order) (Fresh-rev head order v.ring.1)) [
            | inl (e, all_used) ↦
                let stop : (find free (rev order) == head) ≡ true = ground (arith, e) in
                rw stop (
                  no_other,
                  λ b h.
                      All_has (λ b. free b ≡ false) b order (v.covers b h)
                        (All-rev_back (λ b. free b ≡ false) order all_used),
                )
            | inr (ne, first) ↦
                let b = find free (rev order) in
                let other : (b == head) ≡ false = ground (arith, ne) in
                rw other (
                  All_has (λ b. b < nbuf) b (rev order) (first.0, first.1, first.2)
                      (All-rev (λ b. b < nbuf) order v.buffers),
                  claimed-IsCache b no_other,
                  ground arith,
                  ground arith,
                  (λ t nt. ground (arith, nt)),
                  inr (no_other, first, ground arith, ground arith),
                )
          ])

    -- For a device other than 0, `bget` on a cache whose ring holds all buffers, no two with the
    -- same block, keeps that so. If a buffer holds the block, it gets one more reference. If none
    -- does, the least recently used buffer without references is given the block, as not read yet,
    -- with one reference. No other buffer changes. It is a panic exactly if no buffer holds the
    -- block and all have references.
    pub bget_lem : GetOutcome (bget dev blockno c)
    unfolding bget
    bget_lem =
        subst (λ o. GetOutcome (o >>= bget_from dev blockno c))
          (sym (scan_next c.ring wanted order v.ring v.few))
          (elim (find_lem wanted order v.ring.1) [
            | inl (e, none_wanted) ↦
                subst (λ b. GetOutcome (bget_from dev blockno c b)) (sym e)
                  (miss_lem
                    (λ b h. All_has (λ b. wanted b ≡ false) b order (v.covers b h) none_wanted))
            | inr (ne, first) ↦ hit_lem (find wanted order) first ne
          ])

  abbrev released : (c : Bcache B) (b : ℕ) → Buf B
  released c b = record (c.buf b) {
    lock = releasesleep (c.buf b).lock;
    refcnt = sub32 (c.buf b).refcnt 1;
  }

  count_less :
      (c : Bcache B) (b : ℕ)
      → 0 < (c.buf b).refcnt
      → (c.buf b).refcnt < u32_mod
      → ((set_buf b (released c b) c).buf b).refcnt + 1 ≡ (c.buf b).refcnt
  count_less c b lo hi =
      ap (λ (x : Buf B). x.refcnt + 1) (update_self c.buf b b (released c b) refl) ∙ omega arith

  front-IsCache :
      (c : Bcache B) (xs ys : List ℕ) (b : ℕ)
      → IsCache c (xs ++ b ∷ ys)
      → IsCache (record c { ring = push_front b (unlink b c.ring) }) (b ∷ (xs ++ ys))
  front-IsCache c xs ys b v =
      let (ch, f, n) = v.ring in
      let nb : b ≢ head = λ e. (All-right (λ x. head ≢ x) xs (b ∷ ys) f).0 (sym e) in
      let fresh : Fresh b (xs ++ ys) =
        All-append (λ x. b ≢ x) xs ys (Fresh-before b xs ys n) (Nodup-right xs (b ∷ ys) n).0 in
      record {
        ring =
            push_front_lem (unlink b c.ring) b (xs ++ ys) (unlink_lem c.ring b xs ys v.ring) nb
              fresh;
        few = omega (arith, v.few, length-append xs (b ∷ ys), length-append xs ys);
        buffers = (
          (All-right (λ x. x < nbuf) xs (b ∷ ys) v.buffers).0,
          All-append (λ x. x < nbuf) xs ys (All-left (λ x. x < nbuf) xs (b ∷ ys) v.buffers)
              (All-right (λ x. x < nbuf) xs (b ∷ ys) v.buffers).1,
        );
        covers = λ t h. Has-front t b xs ys (v.covers t h);
        unique = v.unique;
      }

  -- `brelse` by the holder of the buffer's lock, with a reference to it, gives up both. If it was
  -- the last reference, the buffer becomes the most recently used one, and the order of the others
  -- stays; else the order stays. No other buffer changes. From another process it is a panic.
  pub brelse_lem :
      (c : Bcache B) (xs ys : List ℕ) (pid b : ℕ)
      → IsCache c (xs ++ b ∷ ys)
      → 0 < (c.buf b).refcnt
      → (c.buf b).refcnt < u32_mod
      → ((holdingsleep pid (c.buf b).lock ≡ false) × (brelse pid b c ≡ none))
        ⊎ ((c' : Bcache B) × (brelse pid b c ≡ some c')
            × ((t : ℕ) → t ≢ b → c'.buf t ≡ c.buf t)
            × ((c'.buf b).refcnt + 1 ≡ (c.buf b).refcnt)
            × ((c'.buf b).lock ≡ releasesleep (c.buf b).lock)
            × IsCache c' (if (c.buf b).refcnt == 1 then b ∷ (xs ++ ys) else xs ++ b ∷ ys))
  unfolding brelse
  brelse_lem c xs ys pid b v lo hi = elim (Bool-cases (holdingsleep pid (c.buf b).lock)) [
    | inr other ↦ inl (other, rw (other, brelse) refl)
    | inl holds ↦
        let c1 : Bcache B = set_buf b (released c b) c in
        let v1 = kept-IsCache c (xs ++ b ∷ ys) b (released c b) v refl refl in
        let less : (c1.buf b).refcnt + 1 ≡ (c.buf b).refcnt = count_less c b lo hi in
        let same_lock : (c1.buf b).lock ≡ releasesleep (c.buf b).lock =
          ap (λ (x : Buf B). x.lock) (update_self c.buf b b (released c b) refl) in
        elim (Bool-cases ((c.buf b).refcnt == 1)) [
          | inl last ↦
              let stop : (sub32 (c.buf b).refcnt 1 == 0) ≡ true = ground (arith, last) in
              inr (
                record c1 { ring = push_front b (unlink b c1.ring) },
                rw (holds, stop, brelse) refl,
                (λ t nt. ground (arith, nt)),
                less,
                same_lock,
                rw last (front-IsCache c1 xs ys b v1),
              )
          | inr more ↦
              let stay : (sub32 (c.buf b).refcnt 1 == 0) ≡ false = ground (arith, more, lo, hi) in
              inr (
                c1,
                rw (holds, stay, brelse) refl,
                (λ t nt. ground (arith, nt)),
                less,
                same_lock,
                rw more v1,
              )
        ]
  ]
