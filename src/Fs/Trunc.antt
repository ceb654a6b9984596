-- ===== src/Fs/Trunc.antt =====
-- `itrunc` of kernel/fs.c frees the blocks of the inode, and no others.
use jklnkhbv.Base.{
  ℕ, suc, ◌≤◌, ◌<◌, ◌≡◌, ◌≢◌, inl, inr, refl, sym, ◌∙◌, Bool, true, false, not, some, update, ◌==◌,
  ◌&&◌, ◌||◌, arith, Bool-cases, eq→==,
}
use jklnkhbv.Fs.{Addrs, Disk, ndirect, nindirect, free_all, trunc_indirect, itrunc}
use jklnkhbv.Fs.Freed.{
  within, IsTaken, Frees, within_not, cleared, bfree_lem, free_all_lem, trunc_direct_lem,
}

-- Whether block `b` is one of the inode's.
abbrev pub owns : Addrs → Disk → ℕ → Bool
owns a d b =
    within ndirect 0 a b
    || (not (a ndirect == 0) && (a ndirect == b || within nindirect 0 (d.words (a ndirect)) b))

-- The blocks of the inode are in use, and no two of its entries name the same one.
pub record IsFile (a : Addrs) (d : Disk) : Type 0 where
  pub direct : IsTaken (suc ndirect) 0 a d
  pub behind : a ndirect ≢ 0 → IsTaken nindirect 0 (d.words (a ndirect)) d
  pub apart :
      a ndirect ≢ 0
      → (k l : ℕ) → k ≤ ndirect
      → l < nindirect
      → a k ≢ 0
      → a k ≢ d.words (a ndirect) l

trunc_indirect_lem :
    (a : Addrs) (d d' : Disk)
    → (a ndirect == 0) ≡ false
    → free_all nindirect 0 (d.words (a ndirect)) d ≡ some d'
    → d'.used (a ndirect) ≡ true
    → trunc_indirect a d ≡ some (update a ndirect 0, cleared (a ndirect) d')
unfolding trunc_indirect
trunc_indirect_lem a d d' nz e u = rw (nz, e, bfree_lem (a ndirect) d' u) refl

trunc_none : (a : Addrs) (d : Disk) → a ndirect ≡ 0 → trunc_indirect a d ≡ some (a, d)
unfolding trunc_indirect
trunc_none a d z = rw (eq→== (a ndirect) 0 z) refl

module _ (a : Addrs) (d : Disk) (v : IsFile a d) where
  fewer : IsTaken ndirect 0 a d
  fewer = record {
    taken = λ k lo hi nz. v.direct.taken k lo (omega (arith, hi)) nz;
    distinct =
        λ k l lo hi lo' hi'. v.direct.distinct k l lo (omega (arith, hi)) lo' (omega (arith, hi'));
  }

  module _ (d1 : Disk) (f : Frees (within ndirect 0 a) d d1) (nz : a ndirect ≢ 0) where
    abbrev table : Addrs
    table = d.words (a ndirect)

    behind_after : IsTaken nindirect 0 table d1
    behind_after = record {
      taken = λ l lo hi nz'.
          let out : within ndirect 0 a (table l) ≡ false =
            within_not ndirect 0 a (table l)
              (λ k lo' hi' nz2. v.apart nz k l (omega (arith, hi')) hi nz2) in
          f.used (table l) ∙ rw out ((v.behind nz).taken l lo hi nz');
      distinct = (v.behind nz).distinct;
    }

    last_used : (d2 : Disk) → Frees (within nindirect 0 table) d1 d2 → d2.used (a ndirect) ≡ true
    last_used d2 g =
        let out : within ndirect 0 a (a ndirect) ≡ false =
          within_not ndirect 0 a (a ndirect) (λ k lo hi nz2 e. absurd (
            ground (
              arith,
              hi,
              v.direct.distinct k ndirect lo (omega (arith, hi)) (omega arith) (omega arith) nz2 e,
            ))) in
        let out' : within nindirect 0 table (a ndirect) ≡ false =
          within_not nindirect 0 table (a ndirect)
            (λ l lo hi nz2 e. v.apart nz ndirect l (omega arith) hi nz (sym e)) in
        g.used (a ndirect)
        ∙ rw out'
            (f.used (a ndirect) ∙ rw out (v.direct.taken ndirect (omega arith) (omega arith) nz))

  -- On an inode whose blocks are in use, none of them twice, `itrunc` does not panic. After it the
  -- bitmap has the inode's direct blocks, its indirect block and the blocks behind that as free,
  -- and all others as they were. No block's content has changed and the inode names no block.
  pub itrunc_lem :
      (a' : Addrs) × (d' : Disk) × (itrunc a d ≡ some (a', d'))
      × ((k : ℕ) → k ≤ ndirect → a' k ≡ 0)
      × Frees (owns a d) d d'
  unfolding itrunc
  itrunc_lem =
      let (d1, a1, e, z, f) = trunc_direct_lem ndirect 0 a d fewer in
      let keep : a1 ndirect ≡ a ndirect = z ndirect in
      elim (Bool-cases (a ndirect == 0)) [
        | inl none_there ↦ (
          a1,
          d1,
          rw e (trunc_none a1 d1 (keep ∙ ground (arith, none_there))),
          (λ k le. ground (arith, le, z k, none_there)),
          record { used = λ b. ground (arith, none_there, f.used b); words = f.words },
        )
        | inr yes_ind ↦
            let nz : a ndirect ≢ 0 = ground (arith, yes_ind) in
            let (d2, e2, g) =
              free_all_lem nindirect 0 (d.words (a ndirect)) d1 (behind_after d1 f nz) in
            let at : d1.words (a1 ndirect) ≡ d.words (a ndirect) = rw (keep, f.words) refl in
            let u = last_used d1 f nz d2 g in
            (
              update a1 ndirect 0,
              cleared (a1 ndirect) d2,
              rw e (trunc_indirect_lem a1 d1 d2 (rw keep yes_ind) (rw at e2) (rw keep u)),
              (λ k le. ground (arith, le, z k)),
              record {
                used = λ b. ground (arith, yes_ind, keep, f.used b, g.used b);
                words = g.words ∙ f.words;
              },
            )
      ]
