-- ===== src/Log/Examples.antt =====
-- The theorems about the log of kernel/log.c at a log with one block.
use jklnkhbv.Base.{
  ◌+◌, ◌≤◌, none, if◌then◌else◌, ℕ, ◌<◌, ◌≡◌, ◌⊎◌, refl, true, false, [], ◌∷◌, All, length, ◌==◌,
  ◌||◌, some, arith,
}
use jklnkhbv.Log.{Log, log_size, Block, commit, log_write, end_op, log_chan}
use jklnkhbv.Log.Install.{logged, in_log}
use jklnkhbv.Log.Commit.{Ready, SameBlocks, committed_disk, Survives, commit_lem}
use jklnkhbv.Log.Reservations.{Reserved, Pinned, log_write_lem, end_op_lem}

abbrev filled : ℕ → Block
filled v i = v

-- Block 40 is to hold 7 in each word; the log starts at block 2.
abbrev one_block : Log
one_block = record {
  start = 2;
  size = 31;
  outstanding = 0;
  committing = true;
  n = 1;
  block = λ i. 40;
  bufs = record { disk = λ b. filled 0; cached = λ b. filled 7; pins = λ b. 1; trail = [] };
}

one_block-Ready : Ready one_block
one_block-Ready = record {
  some_block = omega arith;
  fits = omega arith;
  outside = λ i h. refl;
  empty = refl;
  fresh = refl;
}

abbrev two_ops : Log
two_ops = record one_block { outstanding = 2; committing = false }

two_ops-Reserved : Reserved two_ops (9 ∷ 10 ∷ [])
two_ops-Reserved = record {
  counted = refl;
  few = omega arith;
  each = omega arith;
  room = omega arith;
  idle = refl;
}

commit_lem_example :
    SameBlocks one_block one_block-Ready
      (commit one_block).bufs.disk
      (committed_disk one_block one_block-Ready)
    × ((commit one_block).bufs.disk 2 0 ≡ 0)
    × ((commit one_block).n ≡ 0)
    × All (Survives one_block one_block-Ready 31) (commit one_block).bufs.trail
commit_lem_example = commit_lem one_block one_block-Ready 31

log_write_lem_example :
    ((two_ops.size ≤ log_size) × (two_ops.size ≤ two_ops.n + 1) × (log_write 41 two_ops ≡ none))
    ⊎ ((two_ops.n + 1 < two_ops.size)
        × ((s' : Log) × (log_write 41 two_ops ≡ some s')
            × Reserved s' (8 ∷ 10 ∷ [])
            × ((c : ℕ) → logged s'.block s'.n c ≡ (41 == c || logged two_ops.block two_ops.n c))
            × Pinned 41 two_ops s'))
log_write_lem_example = log_write_lem two_ops [] (10 ∷ []) 8 41 two_ops-Reserved

-- A log of 30 blocks on the disk with 29 blocks in it: an operation has room reserved.
abbrev full_log : Log
full_log = record two_ops { size = 30; outstanding = 1; n = 29 }

full_log-Reserved : Reserved full_log (1 ∷ [])
full_log-Reserved = record {
  counted = refl;
  few = omega arith;
  each = omega arith;
  room = omega arith;
  idle = refl;
}

full_log_panics : log_write 41 full_log ≡ none
unfolding log_write
full_log_panics = refl

abbrev last_op : Log
last_op = record one_block { outstanding = 1; committing = false }

last_op-Reserved : Reserved last_op (9 ∷ [])
last_op-Reserved = record {
  counted = refl;
  few = omega arith;
  each = omega arith;
  room = omega arith;
  idle = refl;
}

end_op_lem_example :
    (s' : Log) × (end_op last_op ≡ some (s', log_chan ∷ []))
    × Reserved s' []
    × (((length {A = ℕ} [] ≡ 0)
          × (s'.n ≡ 0)
          × (s'.bufs.disk 2 0 ≡ 0)
          × ((b : ℕ)
              → in_log 2 b ≡ false
              → s'.bufs.disk b ≡ (
                  if logged last_op.block 1 b then last_op.bufs.cached b else last_op.bufs.disk b)))
        ⊎ ((0 < length {A = ℕ} [])
            × (s'.bufs ≡ last_op.bufs)
            × (s'.n ≡ last_op.n)
            × (s'.block ≡ last_op.block)))
end_op_lem_example = end_op_lem last_op [] [] 9 last_op-Reserved (λ i h. refl) refl refl
