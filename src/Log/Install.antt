-- ===== src/Log/Install.antt =====
-- `install_trans` of kernel/log.c.
use jklnkhbv.Base.{
  ℕ, zero, suc, ◌+◌, ◌≤◌, ◌<◌, ◌≡◌, refl, sym, ap, ◌∙◌, Bool, true, false, ◌∷◌, update, All, ◌==◌,
  leb, ◌&&◌, ◌||◌, arith, subst, fun_ext,
}
use jklnkhbv.Log.{
  Disk, Log, log_size, bwrite, copy_block, bunpin, install_one, install_loop, install_trans,
}

-- The blocks of the log: its header and the blocks behind it.
abbrev pub in_log : ℕ → ℕ → Bool
in_log start b = leb start b && leb b (start + log_size)

-- Whether `b` is one of the first `k` blocks.
unfoldable pub logged : (ℕ → ℕ) → ℕ → ℕ → Bool
logged block zero b = false
logged block (suc k) b = block k == b || logged block k b

-- A transaction: `n` blocks outside the log, and what they are to hold.
pub record Transaction : Type 0 where
  pub start : ℕ
  pub n : ℕ
  pub block : ℕ → ℕ
  pub wanted : Disk
  pub fits : n ≤ log_size
  pub outside : (i : ℕ) → i < n → in_log start (block i) ≡ false

module _ (t : Transaction) (home : Disk) where
  -- The disk holds the transaction in its log; outside the log it has the blocks of `home`, but for
  -- the blocks of the transaction.
  pub record Committed (d : Disk) : Type 0 where
    pub count : d t.start 0 ≡ t.n
    pub blocks : (i : ℕ) → i < t.n → d t.start (suc i) ≡ t.block i
    pub copies : (i : ℕ) → i < t.n → d (t.start + i + 1) ≡ t.wanted (t.block i)
    pub others : (b : ℕ) → in_log t.start b ≡ false → logged t.block t.n b ≡ false → d b ≡ home b

-- Each state of the disk that the loop leaves satisfies `Q`, if the committed ones do.
module _ (t : Transaction) (home : Disk) (Q : Disk → Type 0)
    (weak : (d : Disk) → Committed t home d → Q d) where
  -- After `k` rounds of the loop.
  pub record Installed (k : ℕ) (s : Log) : Type 0 where
    pub start_kept : s.start ≡ t.start
    pub n_kept : s.n ≡ t.n
    pub block_kept : (i : ℕ) → i < t.n → s.block i ≡ t.block i
    pub copies : (i : ℕ) → i < t.n → s.bufs.cached (t.start + i + 1) ≡ t.wanted (t.block i)
    pub committed : Committed t home s.bufs.disk
    pub installed :
        (b : ℕ) → in_log t.start b ≡ false → logged t.block k b ≡ true → s.bufs.disk b ≡ t.wanted b
    pub trail : All Q s.bufs.trail

  logged_step : (k i : ℕ) → i < k → logged t.block k (t.block i) ≡ true
  unfolding logged
  logged_step zero i h = absurd (omega arith)
  logged_step (suc k) i h = ground (arith, logged_step k i)

  module _ (recovering : Bool) (k : ℕ) (s : Log) (v : Installed k s) (h : k < t.n) where
    abbrev next : Log
    next = install_one recovering k s

    from_log : s.bufs.cached (s.start + k + 1) ≡ t.wanted (t.block k)
    from_log = ap (λ a. s.bufs.cached (a + k + 1)) v.start_kept ∙ v.copies k h

    next_disk : next.bufs.disk ≡ update s.bufs.disk (t.block k) (t.wanted (t.block k))
    unfolding install_one bwrite copy_block bunpin
    next_disk =
        let e = from_log in
        let e' = v.block_kept k h in
        elim recovering
          as (λ r.
            (install_one r k s).bufs.disk ≡ update s.bufs.disk (t.block k) (t.wanted (t.block k))) [
              | true ↦ fun_ext λ b. ground (arith, e, e')
              | false ↦ fun_ext λ b. ground (arith, e, e')
            ]

    next_cached : next.bufs.cached ≡ update s.bufs.cached (t.block k) (t.wanted (t.block k))
    unfolding install_one bwrite copy_block bunpin
    next_cached =
        let e = from_log in
        let e' = v.block_kept k h in
        elim recovering
          as (λ r.
            (install_one r k s).bufs.cached
            ≡ update s.bufs.cached (t.block k) (t.wanted (t.block k))) [
              | true ↦ rw (e', e) refl
              | false ↦ rw (e', e) refl
            ]

    next_trail : next.bufs.trail ≡ next.bufs.disk ∷ s.bufs.trail
    unfolding install_one bwrite copy_block bunpin
    next_trail = ground arith

    written-Committed : Committed t home (update s.bufs.disk (t.block k) (t.wanted (t.block k)))
    written-Committed =
        let c = v.committed in
        let o = t.outside k h in
        record {
          count = ground (arith, c.count);
          blocks = λ i lt. ground (arith, c.blocks i lt);
          copies = λ i lt. ground (arith, t.fits, c.copies i lt);
          others = λ b out l. ground (arith, logged_step t.n k h, c.others b out l);
        }

    next-Installed : Installed (suc k) next
    unfolding logged install_one
    next-Installed = record {
      start_kept = v.start_kept;
      n_kept = v.n_kept;
      block_kept = v.block_kept;
      copies = λ i lt.
          ap (λ (f : Disk). f (t.start + i + 1)) next_cached
          ∙ ground (arith, t.fits, v.copies i lt, t.outside k h);
      committed = subst (Committed t home) (sym next_disk) written-Committed;
      installed = λ b out l. ap (λ (f : Disk). f b) next_disk ∙ ground (arith, v.installed b out);
      trail = subst (All Q) (sym next_trail) (
        weak next.bufs.disk (subst (Committed t home) (sym next_disk) written-Committed),
        v.trail,
      );
    }

  install_loop-Installed :
      (rounds k : ℕ) (recovering : Bool) (s : Log)
      → k + rounds ≡ t.n
      → Installed k s
      → Installed t.n (install_loop rounds k recovering s)
  unfolding install_loop
  install_loop-Installed zero k recovering s e v = subst (λ j. Installed j s) (omega arith) v
  install_loop-Installed (suc rounds) k recovering s e v =
      install_loop-Installed rounds (suc k) recovering (install_one recovering k s) (omega arith)
        (next-Installed recovering k s v (omega arith))

  pub install_trans-Installed :
      (recovering : Bool) (s : Log) → Installed 0 s → Installed t.n (install_trans recovering s)
  unfolding install_trans
  install_trans-Installed recovering s v =
      subst (λ r. Installed t.n (install_loop r 0 recovering s)) (sym v.n_kept)
        (install_loop-Installed t.n 0 recovering s (omega arith) v)
