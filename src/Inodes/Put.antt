-- ===== src/Inodes/Put.antt =====
-- `iput` of kernel/fs.c: the last reference to an inode without links frees it.
use jklnkhbv.Base.{
  ℕ, ◌+◌, ◌≤◌, ◌<◌, ◌≡◌, ◌≢◌, ◌⊎◌, inl, inr, refl, ap, Bool, true, false, ◌==◌, ◌&&◌, arith,
  Bool-cases, subst,
}
use jklnkhbv.Locks.{Sleeplock, acquiresleep, releasesleep}
use jklnkhbv.Fs.{Addrs, Disk, ndirect}
use jklnkhbv.Fs.Freed.{Frees}
use jklnkhbv.Fs.Trunc.{owns, IsFile, itrunc_lem}
use jklnkhbv.Inodes.{
  ninode, Inode, Itable, done, sleeps, set_inode, free_inode, iupdate, drop_ref, iput,
}
use jklnkhbv.Inodes.Table.{IsTable}

-- Whether `iput` gives up the last reference to an inode without links.
abbrev pub is_last : Inode → Bool
is_last x = x.ref == 1 && (x.valid && x.copy.nlink == 0)

-- The slot `i` has one reference less, and no other slot has changed.
pub record Drops (i : ℕ) (t t' : Itable) : Type 0 where
  pub table : IsTable t'
  pub less : (t'.inode i).ref + 1 ≡ (t.inode i).ref
  pub name : ((t'.inode i).dev ≡ (t.inode i).dev) × ((t'.inode i).inum ≡ (t.inode i).inum)
  pub others : (k : ℕ) → k ≢ i → t'.inode k ≡ t.inode k

-- The inode of the slot `i` is free on the disk, and so are its blocks.
pub record IsFreed (i : ℕ) (t t' : Itable) : Type 0 where
  pub blocks : Frees (owns (t.inode i).copy.addrs t.disk) t.disk t'.disk
  pub free : (t'.dinode (t.inode i).inum).typ ≡ 0
  pub empty : (t'.dinode (t.inode i).inum).size ≡ 0
  pub no_blocks : (k : ℕ) → k ≤ ndirect → (t'.dinode (t.inode i).inum).addrs k ≡ 0
  pub other_inodes : (n : ℕ) → n ≢ (t.inode i).inum → t'.dinode n ≡ t.dinode n
  pub unread : (t'.inode i).valid ≡ false
  pub unlocked : (t'.inode i).lock.locked ≡ false

module _ (i : ℕ) (t : Itable) (v : IsTable t) (lt : i < ninode) (held : 0 < (t.inode i).ref) where
  -- A change of the slot that keeps what it is for and takes a reference.
  less-Drops :
      (t' : Itable)
      → ((k : ℕ) → k ≢ i → t'.inode k ≡ t.inode k)
      → (t'.inode i).dev ≡ (t.inode i).dev
      → (t'.inode i).inum ≡ (t.inode i).inum
      → (t'.inode i).ref + 1 ≡ (t.inode i).ref
      → Drops i t t'
  less-Drops t' others d n r =
      let kept : (k : ℕ)
          → ((t'.inode k).dev ≡ (t.inode k).dev)
            × ((t'.inode k).inum ≡ (t.inode k).inum)
            × ((t'.inode k).ref ≤ (t.inode k).ref) =
        λ k. elim (Bool-cases (k == i)) [
          | inl e ↦
              let here : i ≡ k = ground (arith, e) in
              subst
                (λ k.
                  ((t'.inode k).dev ≡ (t.inode k).dev)
                  × ((t'.inode k).inum ≡ (t.inode k).inum)
                  × ((t'.inode k).ref ≤ (t.inode k).ref))
                here (d, n, omega (arith, r))
          | inr ne ↦
              let same = others k (ground (arith, ne)) in
              (
                ap (λ (x : Inode). x.dev) same,
                ap (λ (x : Inode). x.inum) same,
                ground (arith, same),
              )
        ] in
      record {
        table = record {
          small = λ k h. omega (arith, (kept k).2, v.small k h);
          unique = λ k l hk hl nk nl ed en.
              v.unique k l hk hl (omega (arith, nk, (kept k).2)) (omega (arith, nl, (kept l).2))
                (omega (arith, ed, (kept k).0, (kept l).0))
                (omega (arith, en, (kept k).1, (kept l).1));
        };
        less = r;
        name = (d, n);
        others = others;
      }

  dropped-Drops : Drops i t (drop_ref i t)
  unfolding drop_ref
  dropped-Drops =
      less-Drops (drop_ref i t) (λ k ne. ground (arith, ne)) (ground arith) (ground arith)
        (ground (arith, held, v.small i lt))

  module _ (last : is_last (t.inode i) ≡ true) (lk : Sleeplock) where
    abbrev freed : Addrs → Disk → Itable
    freed a d = drop_ref i (free_inode i (set_inode i (record (t.inode i) { lock = lk }) t) (a, d))

    freed-Drops : (a : Addrs) (d : Disk) → Drops i t (freed a d)
    unfolding drop_ref free_inode iupdate
    freed-Drops a d =
        less-Drops (freed a d) (λ k ne. ground (arith, ne)) (ground arith) (ground arith)
          (ground (arith, last))

    freed-IsFreed :
        (a : Addrs) (d : Disk)
        → ((k : ℕ) → k ≤ ndirect → a k ≡ 0)
        → Frees (owns (t.inode i).copy.addrs t.disk) t.disk d
        → IsFreed i t (freed a d)
    unfolding drop_ref free_inode iupdate releasesleep
    freed-IsFreed a d z f = record {
      blocks = f;
      free = ground arith;
      empty = ground arith;
      no_blocks = λ k le. ground (arith, z k le);
      other_inodes = λ n ne. ground (arith, ne);
      unread = ground arith;
      unlocked = ground arith;
    }

  -- For a slot with references, of a table that holds each inode at most once: `iput` gives up a
  -- reference to it and changes no other slot. If it was the last one and the inode has no links,
  -- with its blocks in use and none named twice, the inode and its blocks, no others, are free on
  -- the disk afterwards; where the inode is locked, `iput` waits for the lock. In the other cases
  -- the disk stays.
  pub iput_lem :
      (pid : ℕ)
      → (is_last (t.inode i) ≡ true → IsFile (t.inode i).copy.addrs t.disk)
      → ((is_last (t.inode i) ≡ false)
          × (t' : Itable) × (iput pid i t ≡ done t')
          × Drops i t t'
          × (t'.disk ≡ t.disk)
          × (t'.dinode ≡ t.dinode))
        ⊎ ((is_last (t.inode i) ≡ true)
            × ((((t.inode i).lock.locked ≡ true) × (iput pid i t ≡ sleeps))
                ⊎ (((t.inode i).lock.locked ≡ false)
                    × (t' : Itable) × (iput pid i t ≡ done t')
                    × Drops i t t'
                    × IsFreed i t t')))
  unfolding iput acquiresleep drop_ref
  iput_lem pid w = elim (Bool-cases (is_last (t.inode i))) [
    | inr other ↦ inl (other, drop_ref i t, rw other refl, dropped-Drops, refl, refl)
    | inl last ↦ elim (Bool-cases (t.inode i).lock.locked) [
      | inl locked ↦ inr (last, inl (locked, rw (last, locked) refl))
      | inr unlocked ↦
          let (a, d, e, z, f) = itrunc_lem (t.inode i).copy.addrs t.disk (w last) in
          let lk : Sleeplock = record { locked = true; pid = pid } in
          inr (
            last,
            inr (
              unlocked,
              freed last lk a d,
              rw (last, unlocked, e) refl,
              freed-Drops last lk a d,
              freed-IsFreed last lk a d z f,
            ),
          )
    ]
  ]
