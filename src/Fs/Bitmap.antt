-- ===== src/Fs/Bitmap.antt =====
-- `balloc` and `bfree` of kernel/fs.c.
use jklnkhbv.Base.{
  ℕ, ◌<◌, ◌≡◌, ◌⊎◌, inl, inr, refl, ap, Bool, true, false, not, some, update, find_from,
  find_from-some, find_from-first, find_from-none, arith, Option-cases, update_self,
}
use jklnkhbv.Fs.{Disk, mark, balloc, bfree}

abbrev pub marked : ℕ → Disk → Disk
marked b d = record d { used = update d.used b true; words = update d.words b (λ j. 0) }

abbrev pub Full : ℕ → Disk → Type 0
Full size d = (b : ℕ) → b < size → d.used b ≡ true

-- The first free block.
pub record IsFree (size : ℕ) (d : Disk) (b : ℕ) : Type 0 where
  pub below : b < size
  pub free : d.used b ≡ false
  pub first : (c : ℕ) → c < b → d.used c ≡ true

pub balloc_lem :
    (size : ℕ) (d : Disk)
    → (Full size d × (balloc size d ≡ (0, d)))
      ⊎ ((b : ℕ) × IsFree size d b × (balloc size d ≡ (b, marked b d)))
unfolding balloc mark
balloc_lem size d =
    let test : ℕ → Bool = λ b. not (d.used b) in
    elim (Option-cases (find_from test size 0)) [
      | inl e ↦ inl (
        (λ b h. ground (arith, find_from-none test size 0 b e (omega arith) (omega (arith, h)))),
        ap (mark d) e,
      )
      | inr (b, e) ↦ inr (
        b,
        record {
          below = omega (arith, find_from-some test size 0 b e);
          free = ground (arith, find_from-some test size 0 b e);
          first = λ c h. ground (arith, find_from-first test size 0 b c e (omega arith) h);
        },
        ap (mark d) e,
      )
    ]

-- What `balloc` has taken is as it was after `bfree`.
pub bfree-balloc :
    (size : ℕ) (d : Disk) (b : ℕ)
    → IsFree size d b
    → (d' : Disk) × (bfree b (marked b d) ≡ some d') × ((c : ℕ) → d'.used c ≡ d.used c)
unfolding bfree
bfree-balloc size d b v =
    let e : (marked b d).used b ≡ true = update_self d.used b b true refl in
    (
      record (marked b d) { used = update (marked b d).used b false },
      rw e refl,
      (λ c. ground (arith, v.free)),
    )
