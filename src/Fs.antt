-- ===== src/Fs.antt =====
-- The blocks of the file system: the bitmap and the content of inodes, of kernel/fs.c.
use jklnkhbv.Base.{
  ℕ, zero, suc, ◌+◌, ◌-◌, Bool, true, false, not, Option, none, some, update, find_from, ◌==◌, ltb,
  if◌then◌else◌, ◌>>=◌, List, [], ◌∷◌, ◌++◌, ◌*◌, ◌/◌, ◌%◌, ◌^◌, min, add32, ◌||◌,
}
pub mod Bitmap
pub mod Bmap
pub mod Freed
pub mod Trunc
pub mod Content
mod Examples

abbrev pub ndirect : ℕ
ndirect = 12

abbrev pub nindirect : ℕ
nindirect = 256

-- Block numbers: `addrs` of an inode, or an indirect block.
abbrev pub Addrs : Type 0
Addrs = ℕ → ℕ

-- The blocks as the operations see them through the buffer cache and the log. `used` has the bits
-- of the bitmap, of which the one of block `b` stands in block `BBLOCK(b)` at `b % BPB`. `words`
-- has the content of a block as an array of uint.
pub record Disk : Type 0 where
  pub used : ℕ → Bool
  pub words : ℕ → Addrs

-- The rest of `balloc`, with the first free block.
unfoldable pub mark : Disk → Option ℕ → ℕ × Disk
mark d none = (0, d)
mark d (some b) = (b, record d { used = update d.used b true; words = update d.words b (λ j. 0) })

-- `size` is `sb.size`. The two loops of `balloc` count the blocks in order.
unfoldable pub balloc : ℕ → Disk → ℕ × Disk
balloc size d = mark d (find_from (λ b. not (d.used b)) size 0)

-- `none` is a panic.
unfoldable pub bfree : ℕ → Disk → Option Disk
bfree b d = if d.used b then some (record d { used = update d.used b false }) else none

-- `if((addr = a[i]) == 0){ addr = balloc(dev); if(addr) a[i] = addr; }`
unfoldable pub entry : ℕ → ℕ → Addrs → Disk → ℕ × Addrs × Disk
entry size i a d =
    let r = balloc size d in
    if a i == 0 then (if r.0 == 0 then (0, a, r.1) else (r.0, update a i r.0, r.1)) else (a i, a, d)

-- The block behind the indirect block at `addr`.
unfoldable pub indirect_entry : ℕ → ℕ → ℕ → Disk → ℕ × Disk
indirect_entry size bn addr d =
    let (b, a, d') = entry size bn (d.words addr) d in
    (b, record d' { words = update d'.words addr a })

-- `bmap` past the direct blocks.
unfoldable pub bmap_indirect : ℕ → ℕ → Addrs → Disk → ℕ × Addrs × Disk
bmap_indirect size bn addrs d =
    let (addr, addrs', d') = entry size ndirect addrs d in
    let (b, d2) = indirect_entry size bn addr d' in
    if addr == 0 then (0, addrs', d') else (b, addrs', d2)

-- The block number, the inode's `addrs` and the disk after `bmap`. `none` is a panic.
unfoldable pub bmap : ℕ → ℕ → Addrs → Disk → Option (ℕ × Addrs × Disk)
bmap size bn addrs d =
    if ltb bn ndirect
    then some (entry size bn addrs d)
    else if ltb (bn - ndirect) nindirect
    then some (bmap_indirect size (bn - ndirect) addrs d)
    else none

-- `for(j = i; j < i + n; j++) if(a[j]) bfree(dev, a[j]);`
unfoldable pub free_all : ℕ → ℕ → Addrs → Disk → Option Disk
free_all zero i a d = some d
free_all (suc n) i a d =
    (if a i == 0 then some d else bfree (a i) d) >>= λ d'. free_all n (i + 1) a d'

-- `if(a[i]){ bfree(dev, a[i]); a[i] = 0; }`
unfoldable pub trunc_entry : ℕ → Addrs → Disk → Option (Addrs × Disk)
trunc_entry i a d =
    if a i == 0 then some (a, d) else (bfree (a i) d >>= λ d'. some (update a i 0, d'))

-- The first loop of `itrunc`.
unfoldable pub trunc_direct : ℕ → ℕ → Addrs → Disk → Option (Addrs × Disk)
trunc_direct zero i a d = some (a, d)
trunc_direct (suc n) i a d = trunc_entry i a d >>= λ r. trunc_direct n (i + 1) r.0 r.1

-- Its second part.
unfoldable pub trunc_indirect : Addrs → Disk → Option (Addrs × Disk)
trunc_indirect a d =
    if a ndirect == 0
    then some (a, d)
    else (free_all nindirect 0 (d.words (a ndirect)) d >>= λ d1.
        bfree (a ndirect) d1 >>= λ d2. some (update a ndirect 0, d2))

-- `itrunc`, but for the size. `none` is a panic.
unfoldable pub itrunc : Addrs → Disk → Option (Addrs × Disk)
itrunc a d = trunc_direct ndirect 0 a d >>= λ r. trunc_indirect r.0 r.1

abbrev pub bsize : ℕ
bsize = 1024

-- Byte `k` of block `b`, whose words are little-endian.
abbrev pub byte_at : Disk → ℕ → ℕ → ℕ
byte_at d b k = (d.words b (k / 4) / 256 ^ (k % 4)) % 256

-- The `m` bytes of a block from byte `o` on.
unfoldable pub chunk : Disk → ℕ → ℕ → ℕ → List ℕ
chunk d b o zero = []
chunk d b o (suc m) = byte_at d b o ∷ chunk d b (o + 1) m

-- How `readi` ends: with a count, or with -1, and what it has changed; or in a panic of `bmap`. A
-- loop whose fuel has run out has no result either.
pub data Readi (M : Type 0) : Type 0 where
  reads : ℕ → Addrs → Disk → M → Readi M
  fails : Addrs → Disk → M → Readi M
  stuck : Readi M

-- These bytes from place `dst` on, over what stands in the buffer. A byte that is not there yet is 0.
unfoldable pub overwrite : ℕ → List ℕ → List ℕ → List ℕ
overwrite dst [] out = out
overwrite zero (b ∷ bytes) [] = b ∷ bytes
overwrite zero (b ∷ bytes) (x ∷ out) = b ∷ overwrite zero bytes out
overwrite (suc dst) (b ∷ bytes) [] = 0 ∷ overwrite dst (b ∷ bytes) []
overwrite (suc dst) (b ∷ bytes) (x ∷ out) = x ∷ overwrite dst (b ∷ bytes) out

-- `either_copyout` to a buffer of the kernel, which does not fail; `dst` is counted from its start.
abbrev pub to_list : ℕ → List ℕ → List ℕ → Bool × List ℕ
to_list dst bytes out = (true, overwrite dst bytes out)

-- `copyout` is `either_copyout` to the reader's kind of memory.
module _ {M : Type 0} (copyout : ℕ → List ℕ → M → Bool × M) where
  -- The body of the loop of `readi`, with what `bmap` returns; `next` is the next round.
  unfoldable pub read_block :
      (ℕ → ℕ → ℕ → Addrs → Disk → M → Readi M)
      → ℕ
      → ℕ
      → ℕ
      → ℕ
      → M
      → Option (ℕ × Addrs × Disk)
      → Readi M
  read_block next n tot off dst mem none = stuck
  read_block next n tot off dst mem (some (addr, a, d)) =
      let m = min (n - tot) (bsize - off % bsize) in
      let (copied, mem') = copyout dst (chunk d addr (off % bsize) m) mem in
      if addr == 0
      then reads tot a d mem
      else if copied
      then next (tot + m) (off + m) (dst + m) a d mem'
      else fails a d mem'

  -- The loop of `readi`, on fuel.
  unfoldable pub read_rounds : ℕ → ℕ → ℕ → ℕ → ℕ → ℕ → Addrs → Disk → M → Readi M
  read_rounds size zero n tot off dst a d mem = stuck
  read_rounds size (suc fuel) n tot off dst a d mem =
      if ltb tot n
      then read_block (read_rounds size fuel n) n tot off dst mem (bmap size (off / bsize) a d)
      else reads tot a d mem

  -- `length` is `ip->size`, and `size` is `sb.size`.
  unfoldable pub readi : ℕ → ℕ → Addrs → Disk → ℕ → ℕ → ℕ → M → Readi M
  readi size length a d dst off n mem =
      let m = if ltb length (add32 off n) then length - off else n in
      if ltb length off || ltb (add32 off n) off
      then reads 0 a d mem
      else read_rounds size (suc m) m 0 off dst a d mem
