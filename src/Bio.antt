-- ===== src/Bio.antt =====
-- The buffer cache of kernel/bio.c.
pub mod Links
pub mod Scan
pub mod Cache
pub mod Start
mod Examples
use jklnkhbv.Base.{
  ℕ, zero, suc, ◌+◌, ◌-◌, Bool, true, false, not, Option, none, some, update, add32, sub32, ◌==◌,
  ltb, ◌&&◌, if◌then◌else◌, ◌>>=◌,
}
use jklnkhbv.Locks.{Sleeplock, initsleeplock, releasesleep, holdingsleep}

abbrev pub nbuf : ℕ
nbuf = 30

-- The index of `bcache.head`; a pointer to `bcache.buf[i]` is `i`.
abbrev pub head : ℕ
head = nbuf

-- The fields of `struct buf`, but for the links and `disk`, which kernel/virtio_disk.c uses.
pub record Buf (B : Type 0) : Type 0 where
  pub valid : Bool
  pub dev : ℕ
  pub blockno : ℕ
  pub lock : Sleeplock
  pub refcnt : ℕ
  pub content : B

-- The links of all buffers and of the head.
pub record Ring : Type 0 where
  pub next : ℕ → ℕ
  pub prev : ℕ → ℕ

pub record Bcache (B : Type 0) : Type 0 where
  pub buf : ℕ → Buf B
  pub ring : Ring

-- `p->next = q` and `p->prev = q`
abbrev pub set_next : ℕ → ℕ → Ring → Ring
set_next p q r = record r { next = update r.next p q }

abbrev pub set_prev : ℕ → ℕ → Ring → Ring
set_prev p q r = record r { prev = update r.prev p q }

-- Puts `b` between the head and what comes next, as `brelse` does.
unfoldable pub push_front : ℕ → Ring → Ring
push_front b r =
    let r1 = set_next b (r.next head) r in
    let r2 = set_prev b head r1 in let r3 = set_prev (r2.next head) b r2 in set_next head b r3

unfoldable pub unlink : ℕ → Ring → Ring
unlink b r = let r1 = set_prev (r.next b) (r.prev b) r in set_next (r1.prev b) (r1.next b) r1

-- The loop of `binit`.
unfoldable pub init_loop : ℕ → ℕ → Ring → Ring
init_loop zero b r = r
init_loop (suc n) b r = init_loop n (b + 1) (push_front b r)

module _ {B : Type 0} where
  -- `binit` over zeroed memory, where the buffers hold `content`.
  unfoldable pub binit : B → Bcache B
  binit content = record {
    buf = λ b. record {
      valid = false;
      dev = 0;
      blockno = 0;
      lock = initsleeplock;
      refcnt = 0;
      content = content;
    };
    ring =
        init_loop nbuf 0
          (record { next = update (λ p. 0) head head; prev = update (λ p. 0) head head });
  }

  abbrev pub set_buf : ℕ → Buf B → Bcache B → Bcache B
  set_buf b x c = record c { buf = update c.buf b x }

  abbrev pub is_block : ℕ → ℕ → Buf B → Bool
  is_block dev blockno x = x.dev == dev && x.blockno == blockno

  abbrev pub is_free : Buf B → Bool
  is_free x = x.refcnt == 0

-- The two loops of `bget` over the ring, on fuel: the first buffer that passes the test, or the
-- head. `none` says that the fuel has run out.
unfoldable pub scan : (ℕ → ℕ) → (ℕ → Bool) → ℕ → ℕ → Option ℕ
scan step test zero b = none
scan step test (suc fuel) b =
    let rest = scan step test fuel (step b) in
    if b == head then some head else if test b then some b else rest

module _ {B : Type 0} where
  abbrev pub claim : ℕ → ℕ → Buf B → Buf B
  claim dev blockno x = record x { dev = dev; blockno = blockno; valid = false; refcnt = 1 }

  -- The second half of `bget`, with what its loop has found.
  unfoldable pub recycle : ℕ → ℕ → Bcache B → ℕ → Option (ℕ × Bcache B)
  recycle dev blockno c b =
      if b == head then none else some (b, set_buf b (claim dev blockno (c.buf b)) c)

  -- `bget` with what its first loop has found.
  unfoldable pub bget_from : ℕ → ℕ → Bcache B → ℕ → Option (ℕ × Bcache B)
  unfolding recycle
  bget_from dev blockno c b =
      if b == head
      then scan c.ring.prev (λ b. is_free (c.buf b)) (suc nbuf) (c.ring.prev head)
        >>= recycle dev blockno c
      else some (b, set_buf b (record (c.buf b) { refcnt = add32 (c.buf b).refcnt 1 }) c)

  -- `bget`, up to `acquiresleep`. `none` is a panic.
  unfoldable pub bget : ℕ → ℕ → Bcache B → Option (ℕ × Bcache B)
  unfolding bget_from
  bget dev blockno c =
      scan c.ring.next (λ b. is_block dev blockno (c.buf b)) (suc nbuf) (c.ring.next head)
      >>= bget_from dev blockno c

  -- The rest of `bread`, once the lock is held; `block` is what the disk has there.
  unfoldable pub fetch : ℕ → B → Bcache B → Bcache B
  fetch b block c =
      if (c.buf b).valid
      then c
      else set_buf b (record (c.buf b) { content = block; valid = true }) c

  -- The contents that `bwrite` sends to the disk. `none` is a panic.
  unfoldable pub bwrite : ℕ → ℕ → Bcache B → Option B
  bwrite pid b c = if holdingsleep pid (c.buf b).lock then some (c.buf b).content else none

  -- `none` is a panic. The sleepers on the lock are woken.
  unfoldable pub brelse : ℕ → ℕ → Bcache B → Option (Bcache B)
  brelse pid b c =
      if not (holdingsleep pid (c.buf b).lock)
      then none
      else (let x = c.buf b in
          let x' = record x { lock = releasesleep x.lock; refcnt = sub32 x.refcnt 1 } in
          let c1 = set_buf b x' c in
          some
            (if x'.refcnt == 0 then record c1 { ring = push_front b (unlink b c1.ring) } else c1))

  unfoldable pub bpin : ℕ → Bcache B → Bcache B
  bpin b c = set_buf b (record (c.buf b) { refcnt = add32 (c.buf b).refcnt 1 }) c

  unfoldable pub bunpin : ℕ → Bcache B → Bcache B
  bunpin b c = set_buf b (record (c.buf b) { refcnt = sub32 (c.buf b).refcnt 1 }) c
