-- ===== src/Inodes.antt =====
-- The table of inodes in memory, of kernel/fs.c.
pub mod Table
pub mod Put
mod Examples
use jklnkhbv.Base.{
  ℕ, zero, suc, ◌+◌, Bool, true, false, Option, none, some, update, add32, sub32, ◌^◌, ◌==◌, ltb,
  ◌&&◌, is_some, not, if◌then◌else◌,
}
use jklnkhbv.Locks.{Sleeplock, acquiresleep, releasesleep, holdingsleep}
use jklnkhbv.Fs.{Addrs, Disk, itrunc}

abbrev pub ninode : ℕ
ninode = 50

-- `r > 0` for the 32 bits of an int.
abbrev pub positive : ℕ → Bool
positive r = ltb 0 r && ltb r (2 ^ 31)

-- `struct dinode`, and the part of `struct inode` that is a copy of it.
pub record Dinode : Type 0 where
  pub typ : ℕ
  pub major : ℕ
  pub minor : ℕ
  pub nlink : ℕ
  pub size : ℕ
  pub addrs : Addrs

pub record Inode : Type 0 where
  pub dev : ℕ
  pub inum : ℕ
  pub ref : ℕ
  pub lock : Sleeplock
  pub valid : Bool
  pub copy : Dinode

-- `dinode` has the inodes on the disk by number, as the cache and the log show them.
pub record Itable : Type 0 where
  pub inode : ℕ → Inode
  pub disk : Disk
  pub dinode : ℕ → Dinode

abbrev pub set_inode : ℕ → Inode → Itable → Itable
set_inode i x t = record t { inode = update t.inode i x }

-- What the loop of `iget` has found: the inode, or the first slot without references.
pub data Found : Type 0 where
  cached : ℕ → Found
  missing : Option ℕ → Found

abbrev pub is_inode : ℕ → ℕ → Inode → Bool
is_inode dev inum x = positive x.ref && (x.dev == dev && x.inum == inum)

unfoldable pub look : ℕ → ℕ → (ℕ → Inode) → ℕ → ℕ → Option ℕ → Found
look dev inum inode zero i empty = missing empty
look dev inum inode (suc n) i empty =
    let rest =
      look dev inum inode n (i + 1)
        (if not (is_some empty) && (inode i).ref == 0 then some i else empty) in
    if is_inode dev inum (inode i) then cached i else rest

abbrev pub recycled : ℕ → ℕ → Inode → Inode
recycled dev inum x = record x { dev = dev; inum = inum; ref = 1; valid = false }

unfoldable pub idup : ℕ → Itable → Itable
idup i t = set_inode i (record (t.inode i) { ref = add32 (t.inode i).ref 1 }) t

unfoldable pub place : ℕ → ℕ → Itable → Found → Option (ℕ × Itable)
place dev inum t (cached i) = some (i, idup i t)
place dev inum t (missing none) = none
place dev inum t (missing (some i)) = some (i, set_inode i (recycled dev inum (t.inode i)) t)

-- `none` is a panic.
unfoldable pub iget : ℕ → ℕ → Itable → Option (ℕ × Itable)
iget dev inum t = place dev inum t (look dev inum t.inode ninode 0 none)

-- How a function that takes a sleep lock ends.
pub data Outcome : Type 0 where
  done : Itable → Outcome
  sleeps : Outcome
  panics : Outcome

abbrev pub after : Outcome → (Itable → Outcome) → Outcome
after (done t) f = f t
after sleeps f = sleeps
after panics f = panics

abbrev pub or_sleep : Option Sleeplock → (Sleeplock → Outcome) → Outcome
or_sleep none f = sleeps
or_sleep (some lk) f = f lk

abbrev pub or_panic {ℓ} : {A : Type ℓ} → Option A → (A → Outcome) → Outcome
or_panic none f = panics
or_panic (some a) f = f a

-- The rest of `ilock`, with the lock held.
unfoldable pub load : ℕ → Itable → Outcome
load i t =
    let x = t.inode i in
    let y = record x { copy = t.dinode x.inum; valid = true } in
    if x.valid then done t else if y.copy.typ == 0 then panics else done (set_inode i y t)

unfoldable pub ilock : ℕ → ℕ → Itable → Outcome
ilock pid i t =
    let x = t.inode i in
    if not (positive x.ref)
    then panics
    else or_sleep (acquiresleep pid x.lock) (λ lk. load i (set_inode i (record x { lock = lk }) t))

unfoldable pub iunlock : ℕ → ℕ → Itable → Outcome
iunlock pid i t =
    let x = t.inode i in
    if holdingsleep pid x.lock && positive x.ref
    then done (set_inode i (record x { lock = releasesleep x.lock }) t)
    else panics

unfoldable pub iupdate : ℕ → Itable → Itable
iupdate i t = let x = t.inode i in record t { dinode = update t.dinode x.inum x.copy }

-- `itrunc(ip); ip->type = 0; iupdate(ip); ip->valid = 0; releasesleep(&ip->lock);` of `iput`. The
-- first call writes the inode to the disk too, and the second over that.
unfoldable pub free_inode : ℕ → Itable → Addrs × Disk → Itable
free_inode i t (a, d) =
    let x = t.inode i in
    let y = record x { copy = record x.copy { typ = 0; size = 0; addrs = a } } in
    let t1 = iupdate i (record (set_inode i y t) { disk = d }) in
    set_inode i (record y { valid = false; lock = releasesleep x.lock }) t1

unfoldable pub drop_ref : ℕ → Itable → Itable
drop_ref i t = set_inode i (record (t.inode i) { ref = sub32 (t.inode i).ref 1 }) t

unfoldable pub iput : ℕ → ℕ → Itable → Outcome
iput pid i t =
    let x = t.inode i in
    let freed = or_sleep (acquiresleep pid x.lock) (λ lk.
      or_panic (itrunc x.copy.addrs t.disk)
        (λ r. done (free_inode i (set_inode i (record x { lock = lk }) t) r))) in
    after (if x.ref == 1 && (x.valid && x.copy.nlink == 0) then freed else done t)
      (λ t1. done (drop_ref i t1))

unfoldable pub iunlockput : ℕ → ℕ → Itable → Outcome
iunlockput pid i t = after (iunlock pid i t) (iput pid i)
