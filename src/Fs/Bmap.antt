-- ===== src/Fs/Bmap.antt =====
-- `bmap` of kernel/fs.c against the block numbers that the inode and its indirect block hold.
use jklnkhbv.Base.{
  ℕ, ◌+◌, ◌-◌, ◌≤◌, ◌<◌, ◌≡◌, ◌≢◌, ◌⊎◌, inl, inr, refl, sym, ap, ◌∙◌, true, false, none, some,
  update, ◌==◌, ltb, if◌then◌else◌, arith, Bool-cases, ltb→lt, subst,
}
use jklnkhbv.Fs.{Addrs, Disk, ndirect, nindirect, entry, indirect_entry, bmap_indirect, bmap}
use jklnkhbv.Fs.Bitmap.{IsFree, Full, marked, balloc_lem}

-- The number of the block that holds block `bn` of the file; 0 if there is none.
abbrev pub lookup : Addrs → Disk → ℕ → ℕ
lookup a d bn =
    if ltb bn ndirect
    then a bn
    else if a ndirect == 0
    then 0
    else d.words (a ndirect) (bn - ndirect)

-- What `bmap` does for block `bn` of the file: from the inode's `a` and the disk `d` to `b`, `a'`
-- and `d'`.
pub record IsMapped (size bn : ℕ) (a : Addrs) (d : Disk) (b : ℕ) (a' : Addrs) (d' : Disk)
    : Type 0 where
  pub found : lookup a' d' bn ≡ b
  pub kept : (k : ℕ) → k ≢ bn → lookup a' d' k ≡ lookup a d k
  pub old : lookup a d bn ≢ 0 → (b ≡ lookup a d bn) × ((c : ℕ) → d'.used c ≡ d.used c)
  pub fresh : lookup a d bn ≡ 0 → b ≢ 0 → (b < size) × (d.used b ≡ false) × (d'.used b ≡ true)
  pub full : b ≡ 0 → Full size d'
  pub more : (c : ℕ) → d.used c ≡ true → d'.used c ≡ true

entry_lem :
    (size i : ℕ) (a : Addrs) (d : Disk)
    → d.used 0 ≡ true
    → ((a i ≢ 0) × (entry size i a d ≡ (a i, a, d)))
      ⊎ (((a i ≡ 0) × Full size d × (entry size i a d ≡ (0, a, d)))
          ⊎ ((b : ℕ) × (a i ≡ 0)
              × (b ≢ 0)
              × IsFree size d b
              × (entry size i a d ≡ (b, update a i b, marked b d))))
unfolding entry
entry_lem size i a d boot = elim (Bool-cases (a i == 0)) [
  | inr nz ↦ inl (ground (arith, nz), rw nz refl)
  | inl z ↦
      let zero_there : a i ≡ 0 = ground (arith, z) in
      elim (balloc_lem size d) [
        | inl (all, e) ↦ inr (inl (zero_there, all, rw (z, e) refl))
        | inr (b, v, e) ↦
            let nb : b ≢ 0 = λ e0. ground (arith, e0, v.free, boot) in
            let other : (b == 0) ≡ false = ground (arith, nb) in
            inr (inr (b, zero_there, nb, v, rw (z, e, other) refl))
      ]
]

module _ (size : ℕ) (d : Disk) (boot : d.used 0 ≡ true) where
  direct_lem :
      (bn : ℕ) (a : Addrs)
      → bn < ndirect
      → (a ndirect ≢ 0 → d.used (a ndirect) ≡ true)
      → (b : ℕ) × (a' : Addrs) × (d' : Disk) × (entry size bn a d ≡ (b, a', d'))
        × IsMapped size bn a d b a' d'
  direct_lem bn a lt u = elim (entry_lem size bn a d boot) [
    | inl (nz, e) ↦ (
      a bn,
      a,
      d,
      e,
      record {
        found = ground (arith, lt);
        kept = λ k ne. refl;
        old = λ h. (ground (arith, lt), λ c. refl);
        fresh = λ z nb. ground (arith, lt, nz);
        full = λ z. absurd (nz z);
        more = λ c h. h;
      },
    )
    | inr (inl (z, all, e)) ↦ (
      0,
      a,
      d,
      e,
      record {
        found = ground (arith, lt, z);
        kept = λ k ne. refl;
        old = λ h. ground (arith, lt, z);
        fresh = λ z' nb. absurd (nb refl);
        full = λ z'. all;
        more = λ c h. h;
      },
    )
    | inr (inr (b, z, nb, v, e)) ↦ (
      b,
      update a bn b,
      marked b d,
      e,
      record {
        found = ground (arith, lt);
        kept = λ k ne. ground (arith, lt, ne, u, v.free);
        old = λ h. ground (arith, lt, z);
        fresh = λ z' nb'. (v.below, v.free, ground arith);
        full = λ z'. absurd (nb z');
        more = λ c h. ground (arith, h);
      },
    )
  ]

  behind_lem :
      (i : ℕ) (a : Addrs)
      → a ndirect ≢ 0
      → d.used (a ndirect) ≡ true
      → (b : ℕ) × (d' : Disk) × (indirect_entry size i (a ndirect) d ≡ (b, d'))
        × IsMapped size (i + ndirect) a d b a d'
  unfolding indirect_entry
  behind_lem i a nz u =
      let addr : ℕ = a ndirect in
      let w : Addrs = d.words addr in
      let set : Addrs → Disk → Disk = λ x d'. record d' { words = update d'.words addr x } in
      elim (entry_lem size i w d boot) [
        | inl (there, e) ↦ (
          w i,
          set w d,
          rw e refl,
          record {
            found = ground (arith, nz);
            kept = λ k ne. ground (arith, nz);
            old = λ h. (ground (arith, nz), λ c. refl);
            fresh = λ z nb. ground (arith, nz, there);
            full = λ z. absurd (there z);
            more = λ c h. h;
          },
        )
        | inr (inl (z, all, e)) ↦ (
          0,
          set w d,
          rw e refl,
          record {
            found = ground (arith, nz, z);
            kept = λ k ne. ground (arith, nz);
            old = λ h. ground (arith, nz, z);
            fresh = λ z' nb. absurd (nb refl);
            full = λ z'. all;
            more = λ c h. h;
          },
        )
        | inr (inr (b, z, nb, v, e)) ↦ (
          b,
          set (update w i b) (marked b d),
          rw e refl,
          record {
            found = ground (arith, nz);
            kept = λ k ne. ground (arith, nz, ne, u, v.free);
            old = λ h. ground (arith, nz, z);
            fresh = λ z' nb'. (v.below, v.free, ground arith);
            full = λ z'. absurd (nb z');
            more = λ c h. ground (arith, h);
          },
        )
      ]

-- The same numbers, with more blocks in use, before the step.
earlier-IsMapped :
    (size bn b : ℕ) (a a1 a' : Addrs) (d d1 d' : Disk)
    → ((k : ℕ) → lookup a1 d1 k ≡ lookup a d k)
    → ((c : ℕ) → d.used c ≡ true → d1.used c ≡ true)
    → (lookup a d bn ≢ 0 → (c : ℕ) → d1.used c ≡ d.used c)
    → IsMapped size bn a1 d1 b a' d'
    → IsMapped size bn a d b a' d'
earlier-IsMapped size bn b a a1 a' d d1 d' same mono keep v = record {
  found = v.found;
  kept = λ k ne. v.kept k ne ∙ same k;
  old = λ h. let (e, f) = v.old (λ z. h (sym (same bn) ∙ z)) in (e ∙ same bn, λ c. f c ∙ keep h c);
  fresh = λ z nb.
      let (lt, free, now) = v.fresh (same bn ∙ z) nb in (lt, ground (arith, free, mono b), now);
  full = v.full;
  more = λ c h. v.more c (mono c h);
}

indirect_lem :
    (size i : ℕ) (a : Addrs) (d : Disk)
    → d.used 0 ≡ true
    → (a ndirect ≢ 0 → d.used (a ndirect) ≡ true)
    → (b : ℕ) × (a' : Addrs) × (d' : Disk) × (bmap_indirect size i a d ≡ (b, a', d'))
      × IsMapped size (i + ndirect) a d b a' d'
unfolding bmap_indirect
indirect_lem size i a d boot u = elim (entry_lem size ndirect a d boot) [
  | inl (nz, e) ↦
      let some_there : (a ndirect == 0) ≡ false = ground (arith, nz) in
      let (b, d', e', v) = behind_lem size d boot i a nz (u nz) in
      (b, a, d', rw (e, some_there, e') refl, v)
  | inr (inl (z, all, e)) ↦ (
    0,
    a,
    d,
    rw e refl,
    record {
      found = ground (arith, z);
      kept = λ k ne. refl;
      old = λ h. ground (arith, z);
      fresh = λ z' nb. absurd (nb refl);
      full = λ z'. all;
      more = λ c h. h;
    },
  )
  | inr (inr (addr, z, nb, v, e)) ↦
      let a1 : Addrs = update a ndirect addr in
      let d1 : Disk = marked addr d in
      let some_there : (addr == 0) ≡ false = ground (arith, nb) in
      let (b, d', e', w) =
        behind_lem size d1 (ground (arith, boot)) i a1 (ground (arith, nb)) (ground arith) in
      (
        b,
        a1,
        d',
        rw (e, some_there) (ap (λ (r : ℕ × Disk). (r.0, a1, r.1)) e'),
        earlier-IsMapped size (i + ndirect) b a a1 a1 d d1 d' (λ k. ground (arith, z, nb))
            (λ c h. ground (arith, h)) (λ h. ground (arith, h, z)) w,
      )
]

-- Where the boot block and the inode's indirect block are in use, `bmap` panics exactly if `bn` is
-- 268 or more. Else it returns the number of the block that the inode has afterwards for block
-- `bn` of the file, and the inode's other blocks stay. If there was one, it is that one and no
-- block is allocated. If there was none, it is one that was free and is now in use, or 0 if no
-- block is free. No block gets free.
pub bmap_lem :
    (size bn : ℕ) (a : Addrs) (d : Disk)
    → d.used 0 ≡ true
    → (a ndirect ≢ 0 → d.used (a ndirect) ≡ true)
    → ((ndirect + nindirect ≤ bn) × (bmap size bn a d ≡ none))
      ⊎ ((bn < ndirect + nindirect)
          × (b : ℕ) × (a' : Addrs) × (d' : Disk) × (bmap size bn a d ≡ some (b, a', d'))
          × IsMapped size bn a d b a' d')
unfolding bmap
bmap_lem size bn a d boot u = elim (Bool-cases (ltb bn ndirect)) [
  | inl lt ↦
      let (b, a', d', e, v) = direct_lem size d boot bn a (ground (arith, lt)) u in
      inr (omega (arith, ltb→lt bn ndirect lt), b, a', d', rw lt (ap some e), v)
  | inr ge ↦ elim (Bool-cases (ltb (bn - ndirect) nindirect)) [
    | inl lt ↦
        let (b, a', d', e, v) = indirect_lem size (bn - ndirect) a d boot u in
        let back : bn - ndirect + ndirect ≡ bn = ground (arith, ge) in
        inr (
          ground (arith, ge, lt),
          b,
          a',
          d',
          rw (ge, lt) (ap some e),
          subst (λ k. IsMapped size k a d b a' d') back v,
        )
    | inr ge' ↦ inl (ground (arith, ge, ge'), rw (ge, ge') refl)
  ]
]
