-- ===== src/Log.antt =====
-- The write-ahead log of kernel/log.c, over the buffers of kernel/bio.c.
pub mod Install
pub mod Recovery
pub mod Commit
pub mod Reservations
mod Examples
use jklnkhbv.Base.{
  ℕ, zero, suc, ◌+◌, ◌*◌, Bool, true, false, Option, none, some, List, [], ◌∷◌, update, add32,
  sub32, ◌==◌, ltb, leb, ◌||◌, find_from, if◌then◌else◌, ◌>>=◌,
}
use jklnkhbv.Proc.{Chan}

abbrev pub max_op_blocks : ℕ
max_op_blocks = 10

abbrev pub log_size : ℕ
log_size = max_op_blocks * 3

-- The 1024 bytes of a block, as the 32-bit words that they hold.
abbrev pub Block : Type 0
Block = ℕ → ℕ

abbrev pub Disk : Type 0
Disk = ℕ → Block

-- The disk, and the buffers of its blocks: what `bread` finds in the buffer of each block, and how
-- often the buffer is pinned. `trail` lists the states of the disk after each write, the last one
-- first.
pub record Buffers : Type 0 where
  pub disk : Disk
  pub cached : Disk
  pub pins : ℕ → ℕ
  pub trail : List Disk

-- `bwrite` of the buffer of block `b`.
unfoldable pub bwrite : ℕ → Buffers → Buffers
bwrite b s = let d = update s.disk b (s.cached b) in record s { disk = d; trail = d ∷ s.trail }

-- `memmove(to->data, from->data, BSIZE)`
unfoldable pub copy_block : ℕ → ℕ → Buffers → Buffers
copy_block to from s = record s { cached = update s.cached to (s.cached from) }

unfoldable pub bpin : ℕ → Buffers → Buffers
bpin b s = record s { pins = update s.pins b (add32 (s.pins b) 1) }

unfoldable pub bunpin : ℕ → Buffers → Buffers
bunpin b s = record s { pins = update s.pins b (sub32 (s.pins b) 1) }

-- `struct log` and its header, with the buffers.
pub record Log : Type 0 where
  pub start : ℕ
  pub size : ℕ
  pub outstanding : ℕ
  pub committing : Bool
  pub n : ℕ
  pub block : ℕ → ℕ
  pub bufs : Buffers

-- The body of the loop of `install_trans`.
unfoldable pub install_one : Bool → ℕ → Log → Log
unfolding bwrite copy_block bunpin
install_one recovering tail s =
    let home = s.block tail in
    let written = bwrite home (copy_block home (s.start + tail + 1) s.bufs) in
    record s { bufs = if recovering then written else bunpin home written }

unfoldable pub install_loop : ℕ → ℕ → Bool → Log → Log
install_loop zero tail recovering s = s
install_loop (suc rounds) tail recovering s =
    install_loop rounds (suc tail) recovering (install_one recovering tail s)

unfoldable pub install_trans : Bool → Log → Log
install_trans recovering s = install_loop s.n 0 recovering s

unfoldable pub read_head : Log → Log
read_head s =
    let head = s.bufs.cached s.start in
    record s { n = head 0; block = λ i. if ltb i (head 0) then head (suc i) else s.block i }

-- The header that `write_head` makes of the words of its buffer.
abbrev pub header : Log → Block → Block
header s old zero = s.n
header s old (suc i) = if ltb i s.n then s.block i else old (suc i)

unfoldable pub write_head : Log → Log
unfolding bwrite
write_head s =
    let head = header s (s.bufs.cached s.start) in
    record s {
      bufs = bwrite s.start (record s.bufs { cached = update s.bufs.cached s.start head });
    }

unfoldable pub recover_from_log : Log → Log
recover_from_log s = write_head (record (install_trans true (read_head s)) { n = 0 })

-- The body of the loop of `write_log`.
unfoldable pub write_one : ℕ → Log → Log
unfolding bwrite copy_block
write_one tail s =
    let to = s.start + tail + 1 in
    record s { bufs = bwrite to (copy_block to (s.block tail) s.bufs) }

unfoldable pub write_loop : ℕ → ℕ → Log → Log
write_loop zero tail s = s
write_loop (suc rounds) tail s = write_loop rounds (suc tail) (write_one tail s)

unfoldable pub write_log : Log → Log
write_log s = write_loop s.n 0 s

unfoldable pub commit : Log → Log
commit s =
    if ltb 0 s.n
    then write_head (record (install_trans false (write_head (write_log s))) { n = 0 })
    else s

-- `initlog` at a start of the machine: the buffers hold what the disk does, and none is pinned. The
-- rest of the global `log` is zero.
unfoldable pub initlog : ℕ → ℕ → Disk → Log
initlog logstart nlog d = recover_from_log (record {
  start = logstart;
  size = nlog;
  outstanding = 0;
  committing = false;
  n = 0;
  block = λ i. 0;
  bufs = record { disk = d; cached = d; pins = λ b. 0; trail = [] };
})

-- The address of the log, as a channel.
abbrev pub log_chan : Chan
log_chan = record { kind = 1; index = 0 }

-- What one pass of the loop of `begin_op` comes to.
pub data Begin : Type 0 where
  begins : Log → Begin
  waits : Begin

unfoldable pub begin_op : Log → Begin
begin_op s =
    if s.committing
    then waits
    else if ltb log_size (s.n + (s.outstanding + 1) * max_op_blocks)
    then waits
    else begins (record s { outstanding = add32 s.outstanding 1 })

-- The first part of `end_op`, under the lock: whether to commit. `none` is a panic.
unfoldable pub end_count : Log → Option (Bool × Log)
end_count s =
    let s1 = record s { outstanding = sub32 s.outstanding 1 } in
    if s.committing
    then none
    else if s1.outstanding == 0
    then some (true, record s1 { committing = true })
    else some (false, s1)

-- The second part.
unfoldable pub end_commit : Bool → Log → Log
end_commit false s = s
end_commit true s = record (commit s) { committing = false }

-- Both branches wake the sleepers on the log.
unfoldable pub end_op : Log → Option (Log × List Chan)
end_op s = do (last, s1) ← end_count s; some (end_commit last s1, log_chan ∷ [])

-- `log_write` of the buffer of block `b`. `none` is a panic.
unfoldable pub log_write : ℕ → Log → Option Log
log_write b s =
    if leb log_size s.n || leb s.size (s.n + 1)
    then none
    else if ltb s.outstanding 1
    then none
    else elim (find_from (λ i. s.block i == b) s.n 0) [
      | some i ↦ some (record s { block = update s.block i b })
      | none ↦ some (record s { block = update s.block s.n b; bufs = bpin b s.bufs; n = s.n + 1 })
    ]
