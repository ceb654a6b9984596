-- ===== src/Fs/Freed.antt =====
-- What the loops of `itrunc` of kernel/fs.c do to the bitmap.
use jklnkhbv.Base.{
  ℕ, zero, suc, ◌+◌, ◌≤◌, ◌<◌, ◌≡◌, ◌≢◌, inl, inr, refl, Bool, true, false, not, some, update, ◌==◌,
  ◌&&◌, ◌||◌, if◌then◌else◌, arith, Bool-cases, ltb, leb,
}
use jklnkhbv.Fs.{Addrs, Disk, bfree, free_all, trunc_entry, trunc_direct}

-- Whether block `b` is one of `a[i]` to `a[i + n - 1]`; 0 stands for none.
unfoldable pub within : ℕ → ℕ → Addrs → ℕ → Bool
within zero i a b = false
within (suc n) i a b = (not (a i == 0) && a i == b) || within n (i + 1) a b

-- The blocks named are in use, and no two names are for the same one.
pub record IsTaken (n i : ℕ) (a : Addrs) (d : Disk) : Type 0 where
  pub taken : (k : ℕ) → i ≤ k → k < i + n → a k ≢ 0 → d.used (a k) ≡ true
  pub distinct : (k l : ℕ) → i ≤ k → k < i + n → i ≤ l → l < i + n → a k ≢ 0 → a k ≡ a l → k ≡ l

pub within_not :
    (n i : ℕ) (a : Addrs) (b : ℕ)
    → ((k : ℕ) → i ≤ k → k < i + n → a k ≢ 0 → a k ≢ b)
    → within n i a b ≡ false
unfolding within
within_not zero i a b h = refl
within_not (suc n) i a b h = ground (
  arith,
  h i (omega arith) (omega arith),
  within_not n (i + 1) a b (λ k lo hi. h k (omega (arith, lo)) (omega (arith, hi))),
)

-- `d'` is `d` without the blocks that `gone` holds of.
pub record Frees (gone : ℕ → Bool) (d d' : Disk) : Type 0 where
  pub used : (b : ℕ) → d'.used b ≡ (if gone b then false else d.used b)
  pub words : d'.words ≡ d.words

abbrev pub cleared : ℕ → Disk → Disk
cleared b d = record d { used = update d.used b false }

pub bfree_lem : (b : ℕ) (d : Disk) → d.used b ≡ true → bfree b d ≡ some (cleared b d)
unfolding bfree
bfree_lem b d e = rw e refl

-- The rest of the names, once the first one's block has been freed.
next-IsTaken :
    (n i : ℕ) (a : Addrs) (d : Disk)
    → IsTaken (suc n) i a d
    → IsTaken n (i + 1) a (if a i == 0 then d else cleared (a i) d)
next-IsTaken n i a d v = record {
  taken = λ k lo hi nz. ground (
    arith,
    v.taken k (omega (arith, lo)) (omega (arith, hi)) nz,
    v.distinct i k (omega arith) (omega arith) (omega (arith, lo)) (omega (arith, hi)),
  );
  distinct = λ k l lo hi lo' hi'.
      v.distinct k l (omega (arith, lo)) (omega (arith, hi)) (omega (arith, lo'))
        (omega (arith, hi'));
}

pub free_all_lem :
    (n i : ℕ) (a : Addrs) (d : Disk)
    → IsTaken n i a d
    → (d' : Disk) × (free_all n i a d ≡ some d') × Frees (within n i a) d d'
unfolding free_all within
free_all_lem zero i a d v = (d, refl, record { used = λ b. refl; words = refl })
free_all_lem (suc n) i a d v = elim (Bool-cases (a i == 0)) [
  | inl z ↦
      let v' : IsTaken n (i + 1) a d = rw z at (next-IsTaken n i a d v) in
      let (d', e, f) = free_all_lem n (i + 1) a d v' in
      (d', rw z e, record { used = λ b. ground (arith, z, f.used b); words = f.words })
  | inr nz ↦
      let v' : IsTaken n (i + 1) a (cleared (a i) d) = rw nz at (next-IsTaken n i a d v) in
      let (d', e, f) = free_all_lem n (i + 1) a (cleared (a i) d) v' in
      let t : d.used (a i) ≡ true = v.taken i (omega arith) (omega arith) (ground (arith, nz)) in
      (
        d',
        rw (nz, bfree_lem (a i) d t) e,
        record { used = λ b. ground (arith, nz, f.used b); words = f.words },
      )
]

within_same :
    (n i : ℕ) (a a' : Addrs) (b : ℕ)
    → ((k : ℕ) → i ≤ k → a' k ≡ a k)
    → within n i a' b ≡ within n i a b
unfolding within
within_same zero i a a' b h = refl
within_same (suc n) i a a' b h =
    ground
      (arith, h i (omega arith), within_same n (i + 1) a a' b (λ k lo. h k (omega (arith, lo))))

same-IsTaken :
    (n i : ℕ) (a a' : Addrs) (d : Disk)
    → ((k : ℕ) → i ≤ k → a' k ≡ a k)
    → IsTaken n i a d
    → IsTaken n i a' d
same-IsTaken n i a a' d h v = record {
  taken = λ k lo hi nz. ground (arith, h k lo, v.taken k lo hi, nz);
  distinct = λ k l lo hi lo' hi' nz e.
      v.distinct k l lo hi lo' hi' (ground (arith, h k lo, nz))
        (ground (arith, h k lo, h l lo', e));
}

-- `addrs` after the first loop.
abbrev pub zeroed : ℕ → ℕ → Addrs → Addrs
zeroed n i a k = if leb i k && ltb k (i + n) then 0 else a k

pub trunc_direct_lem :
    (n i : ℕ) (a : Addrs) (d : Disk)
    → IsTaken n i a d
    → (d' : Disk) × (a' : Addrs) × (trunc_direct n i a d ≡ some (a', d'))
      × ((k : ℕ) → a' k ≡ zeroed n i a k)
      × Frees (within n i a) d d'
unfolding trunc_direct trunc_entry within
trunc_direct_lem zero i a d v =
    (d, a, refl, (λ k. ground arith), record { used = λ b. refl; words = refl })
trunc_direct_lem (suc n) i a d v = elim (Bool-cases (a i == 0)) [
  | inl z ↦
      let v' : IsTaken n (i + 1) a d = rw z at (next-IsTaken n i a d v) in
      let (d', a', e, za, f) = trunc_direct_lem n (i + 1) a d v' in
      (
        d',
        a',
        rw z e,
        (λ k. ground (arith, z, za k)),
        record { used = λ b. ground (arith, z, f.used b); words = f.words },
      )
  | inr nz ↦
      let v' : IsTaken n (i + 1) a (cleared (a i) d) = rw nz at (next-IsTaken n i a d v) in
      let same : (k : ℕ) → i + 1 ≤ k → update a i 0 k ≡ a k = λ k lo. ground (arith, lo) in
      let (d', a', e, za, f) =
        trunc_direct_lem n (i + 1) (update a i 0) (cleared (a i) d)
          (same-IsTaken n (i + 1) a (update a i 0) (cleared (a i) d) same v') in
      let t : d.used (a i) ≡ true = v.taken i (omega arith) (omega arith) (ground (arith, nz)) in
      (
        d',
        a',
        rw (nz, bfree_lem (a i) d t) e,
        (λ k. ground (arith, nz, za k)),
        record {
          used = λ b. ground (arith, nz, f.used b, within_same n (i + 1) a (update a i 0) b same);
          words = f.words;
        },
      )
]
