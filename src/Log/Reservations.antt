-- ===== src/Log/Reservations.antt =====
-- `begin_op`, `log_write` and `end_op` of kernel/log.c: each operation of the file system reserves
-- room in the log for the blocks it may write.
use jklnkhbv.Base.{
  ℕ, zero, suc, ◌+◌, ◌*◌, ◌≤◌, ◌<◌, ◌≡◌, ◌⊎◌, refl, ap, sym, find_from-none, ◌∙◌, Bool, true, false,
  none, some, List, [], ◌∷◌, ◌++◌, update, add32, sub32, All, All-left, All-right, All-append,
  length, length-append, ◌==◌, ltb, leb, ◌||◌, arith, Bool-cases, Option-cases, inl, inr, find_from,
  find_from-some, fun_ext, if◌then◌else◌,
}
use jklnkhbv.Log.{
  Log, log_size, max_op_blocks, begin_op, begins, waits, end_count, end_commit, end_op, log_write,
  log_chan, commit, bpin, write_head, install_trans, write_log, write_loop, write_one, install_loop,
  install_one,
}
use jklnkhbv.Log.Install.{logged, in_log}
use jklnkhbv.Log.Commit.{Ready, commit_lem}

abbrev pub sum : List ℕ → ℕ
sum [] = 0
sum (w ∷ ws) = w + sum ws

sum-append : (xs ys : List ℕ) → sum (xs ++ ys) ≡ sum xs + sum ys
sum-append [] ys = omega arith
sum-append (x ∷ xs) ys = omega (arith, sum-append xs ys)

abbrev pub Small : ℕ → Type 0
Small w = w ≤ max_op_blocks

-- `left` lists, for each operation under way, how many blocks it may still add to the log.
pub record Reserved (s : Log) (left : List ℕ) : Type 0 where
  pub counted : s.outstanding ≡ length left
  pub few : length left ≤ 3
  pub each : All Small left
  pub room : s.n + sum left ≤ log_size
  pub idle : s.committing ≡ false

sum-Small : (left : List ℕ) → All Small left → sum left ≤ length left * 10
sum-Small [] h = omega arith
sum-Small (w ∷ ws) h = let ih = sum-Small ws h.1 in omega (arith, h.0)

-- With room reserved for the operations under way, a pass of `begin_op` lets one more operation in
-- if the log has room for ten blocks of each and ten more, and reserves ten for it; otherwise the
-- operation waits.
pub begin_op_lem :
    (s : Log) (left : List ℕ)
    → Reserved s left
    → ((s.n + (length left + 1) * max_op_blocks ≤ log_size)
        × ((s' : Log) × (begin_op s ≡ begins s') × Reserved s' (max_op_blocks ∷ left)))
      ⊎ ((log_size < s.n + (length left + 1) * max_op_blocks) × (begin_op s ≡ waits))
unfolding begin_op
begin_op_lem s left r =
    elim (Bool-cases (ltb log_size (s.n + (s.outstanding + 1) * max_op_blocks))) [
      | inl full ↦ inr (ground (arith, full, r.counted), rw (r.idle, full) refl)
      | inr room ↦
          let fits : s.n + (length left + 1) * 10 ≤ 30 = ground (arith, room, r.counted) in
          let ih = sum-Small left r.each in
          inl (
            fits,
            (
              record s { outstanding = add32 s.outstanding 1 },
              rw (r.idle, room) refl,
              record {
                counted = omega (arith, r.counted);
                few = omega arith;
                each = (omega arith, r.each);
                room = omega arith;
                idle = r.idle;
              },
            ),
          )
    ]

spend :
    (s : Log) (xs ys : List ℕ) (w : ℕ)
    → Reserved s (xs ++ suc w ∷ ys)
    → s.n + (sum xs + (w + sum ys)) + 1 ≤ log_size
spend s xs ys w r = omega (arith, r.room, sum-append xs (suc w ∷ ys))

spent :
    (s : Log) (xs ys : List ℕ) (w : ℕ) (s' : Log)
    → Reserved s (xs ++ suc w ∷ ys)
    → s'.n ≤ s.n + 1
    → s'.outstanding ≡ s.outstanding
    → s'.committing ≡ s.committing
    → Reserved s' (xs ++ w ∷ ys)
spent s xs ys w s' r le o c = record {
  counted = omega (arith, r.counted, length-append xs (suc w ∷ ys), length-append xs (w ∷ ys));
  few = omega (arith, r.few, length-append xs (suc w ∷ ys), length-append xs (w ∷ ys));
  each =
      let small = All-right Small xs (suc w ∷ ys) r.each in
      All-append Small xs (w ∷ ys) (All-left Small xs (suc w ∷ ys) r.each)
        (omega (arith, small.0), small.1);
  room = omega (arith, spend s xs ys w r, sum-append xs (w ∷ ys));
  idle = c ∙ r.idle;
}

logged_here : (block : ℕ → ℕ) (n i : ℕ) → i < n → logged block n (block i) ≡ true
unfolding logged
logged_here block zero i h = absurd (omega arith)
logged_here block (suc n) i h = ground (arith, logged_here block n i)

logged_not :
    (block : ℕ → ℕ) (n b : ℕ)
    → ((i : ℕ) → i < n → (block i == b) ≡ false)
    → logged block n b ≡ false
unfolding logged
logged_not block zero b absent = refl
logged_not block (suc n) b absent =
    let rest = logged_not block n b (λ i h. absent i (omega arith)) in
    ground (arith, rest, absent n)

-- A block that is new in the log is held in the cache.
abbrev pub Pinned : ℕ → Log → Log → Type 0
Pinned b s s' = s'.bufs ≡ record s.bufs {
  pins =
      if logged s.block s.n b then s.bufs.pins else update s.bufs.pins b (add32 (s.bufs.pins b) 1);
}

-- A write of the entry `n` does not change the first `n`.
logged-update :
    (block : ℕ → ℕ) (n m i b c : ℕ) → i ≡ m + n → logged (update block i b) n c ≡ logged block n c
unfolding logged
logged-update block zero m i b c e = refl
logged-update block (suc n) m i b c e = ground (arith, logged-update block n (suc m) i b c)

update_same : (block : ℕ → ℕ) (i b : ℕ) → block i ≡ b → update block i b ≡ block
update_same block i b e = fun_ext λ j. ground (arith, ap block)

log_write-some :
    (s : Log) (xs ys : List ℕ) (w b : ℕ)
    → Reserved s (xs ++ suc w ∷ ys)
    → s.n + 1 < s.size
    → (s' : Log) × (log_write b s ≡ some s')
      × Reserved s' (xs ++ w ∷ ys)
      × ((c : ℕ) → logged s'.block s'.n c ≡ (b == c || logged s.block s.n c))
      × Pinned b s s'
unfolding log_write logged bpin
log_write-some s xs ys w b r fits =
    let room = spend s xs ys w r in
    let small : leb log_size s.n || leb s.size (s.n + 1) ≡ false = ground (arith, room, fits) in
    let open_ops : 0 < s.outstanding = omega (arith, r.counted, length-append xs (suc w ∷ ys)) in
    let inside : ltb s.outstanding 1 ≡ false = ground (arith, open_ops) in
    elim (Option-cases (find_from (λ i. s.block i == b) s.n 0)) [
      | inr (i, e) ↦
          let hit = find_from-some (λ i. s.block i == b) s.n 0 i e in
          let same_block : s.block i ≡ b = ground (arith, hit.0) in
          let s' : Log = record s { block = update s.block i b } in
          let old : logged s.block s.n b ≡ true =
            ap (logged s.block s.n) (sym same_block)
            ∙ logged_here s.block s.n i (omega (arith, hit.2)) in
          (
            s',
            rw (small, inside, e) refl,
            spent s xs ys w s' r (omega arith) refl refl,
            (λ c.
                ap (λ (f : ℕ → ℕ). logged f s.n c) (update_same s.block i b same_block)
                ∙ ground (arith, logged_here s.block s.n i, same_block, hit.2)),
            rw old refl,
          )
      | inl e ↦
          let s' : Log = record s {
            block = update s.block s.n b;
            bufs = bpin b s.bufs;
            n = s.n + 1;
          } in
          let new : logged s.block s.n b ≡ false = logged_not s.block s.n b (λ i h.
            find_from-none (λ i. s.block i == b) s.n 0 i e (omega arith) (omega (arith, h))) in
          (
            s',
            rw (small, inside, e) refl,
            spent s xs ys w s' r (omega arith) refl refl,
            (λ c.
                let more : s.n + 1 ≡ suc s.n = omega arith in
                ap (λ m. logged s'.block m c) more
                ∙ ground (arith, logged-update s.block s.n 0 s.n b c)),
            rw new refl,
          )
    ]

-- With room reserved, and one more block left to the operation: `log_write` panics exactly if the
-- log on the disk, of `size` blocks with its header, has no more room than for the blocks that are
-- in it, which does not happen with more than 30 blocks. Else the block is in the log afterwards,
-- and the ones that were; its buffer is held once more exactly if it was not in the log; no other
-- operation has lost room.
pub log_write_lem :
    (s : Log) (xs ys : List ℕ) (w b : ℕ)
    → Reserved s (xs ++ suc w ∷ ys)
    → ((s.size ≤ log_size) × (s.size ≤ s.n + 1) × (log_write b s ≡ none))
      ⊎ ((s.n + 1 < s.size)
          × ((s' : Log) × (log_write b s ≡ some s')
              × Reserved s' (xs ++ w ∷ ys)
              × ((c : ℕ) → logged s'.block s'.n c ≡ (b == c || logged s.block s.n c))
              × Pinned b s s'))
unfolding log_write
log_write_lem s xs ys w b r =
    let room = spend s xs ys w r in
    elim (Bool-cases (leb s.size (s.n + 1))) [
      | inl full ↦
          let stop : leb log_size s.n || leb s.size (s.n + 1) ≡ true = ground (arith, full) in
          inl (ground (arith, room, full), ground (arith, full), rw stop refl)
      | inr more ↦
          let fits : s.n + 1 < s.size = ground (arith, more) in
          inr (fits, log_write-some s xs ys w b r fits)
    ]

remove :
    (s : Log) (xs ys : List ℕ) (w : ℕ) (s' : Log)
    → Reserved s (xs ++ w ∷ ys)
    → s'.n ≤ s.n
    → s'.outstanding ≡ sub32 s.outstanding 1
    → s'.committing ≡ false
    → Reserved s' (xs ++ ys)
remove s xs ys w s' r le o c =
    let both = length-append xs (w ∷ ys) in
    record {
      counted = omega (arith, o, r.counted, r.few, both, length-append xs ys);
      few = omega (arith, r.few, both, length-append xs ys);
      each =
          All-append Small xs ys (All-left Small xs (w ∷ ys) r.each)
            (All-right Small xs (w ∷ ys) r.each).1;
      room = omega (arith, r.room, sum-append xs (w ∷ ys), sum-append xs ys);
      idle = c;
    }

abbrev SameFrame : Log → Log → Type 0
SameFrame s s' = (s'.outstanding ≡ s.outstanding) × (s'.size ≡ s.size)

write_loop-SameFrame : (rounds tail : ℕ) (s : Log) → SameFrame s (write_loop rounds tail s)
unfolding write_loop write_one
write_loop-SameFrame zero tail s = (refl, refl)
write_loop-SameFrame (suc rounds) tail s = write_loop-SameFrame rounds (suc tail) (write_one tail s)

install_loop-SameFrame :
    (rounds tail : ℕ) (b : Bool) (s : Log) → SameFrame s (install_loop rounds tail b s)
unfolding install_loop install_one
install_loop-SameFrame zero tail b s = (refl, refl)
install_loop-SameFrame (suc rounds) tail b s =
    install_loop-SameFrame rounds (suc tail) b (install_one b tail s)

commit-SameFrame : (s : Log) → ((commit s).n ≡ 0) × SameFrame s (commit s)
unfolding commit write_head write_log install_trans
commit-SameFrame s = elim (Bool-cases (ltb 0 s.n)) [
  | inl some_block ↦
      let logged_log = write_head (write_loop s.n 0 s) in
      let a = write_loop-SameFrame s.n 0 s in
      let b = install_loop-SameFrame logged_log.n 0 false logged_log in
      rw some_block (refl, (b.0 ∙ a.0, b.1 ∙ a.1))
  | inr none_logged ↦ rw none_logged (ground (arith, none_logged), (refl, refl))
]

-- What `commit` leaves on the disk, also of an empty log.
commit_end :
    (s : Log)
    → s.n ≤ log_size
    → ((i : ℕ) → i < s.n → in_log s.start (s.block i) ≡ false)
    → s.bufs.disk s.start 0 ≡ 0
    → s.bufs.trail ≡ []
    → ((b : ℕ)
        → in_log s.start b ≡ false
        → (commit s).bufs.disk b
          ≡ (if logged s.block s.n b then s.bufs.cached b else s.bufs.disk b))
      × ((commit s).bufs.disk s.start 0 ≡ 0)
unfolding commit logged
commit_end s fits outside empty fresh = elim (Bool-cases (ltb 0 s.n)) [
  | inl some_block ↦
      let ready : Ready s = record {
        some_block = ground (arith, some_block);
        fits = fits;
        outside = outside;
        empty = empty;
        fresh = fresh;
      } in
      let done = commit_lem s ready 0 in (done.0, done.1)
  | inr none_logged ↦
      let zero_blocks : s.n ≡ 0 = ground (arith, none_logged) in
      rw none_logged ((λ b out. rw zero_blocks refl), empty)
]

-- With room reserved, `end_op` of one of the operations does not panic and gives up its
-- reservation. If it was not the last one, the log and the buffers stay. If it was: where no block in
-- the log is one of the log's own, and the log on the disk is empty, with the writes to the disk
-- counted from here on, each block in the log is on the disk afterwards as its buffer had it, the
-- other ones outside the log are as before, and the log is empty in memory and on the disk.
pub end_op_lem :
    (s : Log) (xs ys : List ℕ) (w : ℕ)
    → Reserved s (xs ++ w ∷ ys)
    → ((i : ℕ) → i < s.n → in_log s.start (s.block i) ≡ false)
    → s.bufs.disk s.start 0 ≡ 0
    → s.bufs.trail ≡ []
    → (s' : Log) × (end_op s ≡ some (s', log_chan ∷ []))
      × Reserved s' (xs ++ ys)
      × (((length (xs ++ ys) ≡ 0)
            × (s'.n ≡ 0)
            × (s'.bufs.disk s.start 0 ≡ 0)
            × ((b : ℕ)
                → in_log s.start b ≡ false
                → s'.bufs.disk b
                  ≡ (if logged s.block s.n b then s.bufs.cached b else s.bufs.disk b)))
          ⊎ ((0 < length (xs ++ ys)) × (s'.bufs ≡ s.bufs) × (s'.n ≡ s.n) × (s'.block ≡ s.block)))
unfolding end_op end_count end_commit
end_op_lem s xs ys w r outside empty fresh =
    let both = length-append xs (w ∷ ys) in
    let parts = length-append xs ys in
    let left_over : sub32 s.outstanding 1 ≡ length (xs ++ ys) =
      omega (arith, r.counted, r.few, both, parts) in
    let s1 : Log = record s { outstanding = sub32 s.outstanding 1 } in
    elim (Bool-cases (s1.outstanding == 0)) [
      | inl last ↦
          let s2 : Log = record s1 { committing = true } in
          let kept = commit-SameFrame s2 in
          let s' : Log = record (commit s2) { committing = false } in
          let (on_disk, erased) = commit_end s2 (omega (arith, r.room)) outside empty fresh in
          (
            s',
            rw (r.idle, last) refl,
            remove s xs ys w s' r (omega (arith, kept.0)) kept.1.0 refl,
            inl (ground (arith, last, left_over), kept.0, erased, on_disk),
          )
      | inr more ↦ (
        s1,
        rw (r.idle, more) refl,
        remove s xs ys w s1 r (omega arith) refl r.idle,
        inr (ground (arith, more, left_over), refl, refl, refl),
      )
    ]
