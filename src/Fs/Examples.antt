-- ===== src/Fs/Examples.antt =====
-- Tests of the block functions, and concrete inputs for their theorems.
use jklnkhbv.Base.{
  [], ◌∷◌, ◌+◌, ℕ, ◌+◌, ◌<◌, ◌≤◌, ◌≡◌, ◌⊎◌, none, some, ◌==◌, ltb, if◌then◌else◌, arith, refl,
  find_from,
}
use jklnkhbv.Fs.{
  readi, to_list, overwrite, reads, read_rounds, read_block, chunk, Addrs, Disk, ndirect, nindirect,
  mark, balloc, entry, bmap, itrunc,
}
use jklnkhbv.Fs.Content.{content, HasNoHoles, readi_lem}
use jklnkhbv.Fs.Freed.{Frees}
use jklnkhbv.Fs.Trunc.{IsFile, owns, itrunc_lem}
use jklnkhbv.Fs.Bmap.{IsMapped, bmap_lem}

-- Block 45 is the indirect block of `addrs`, and block 46 stands behind it.
abbrev disk : Disk
disk = record {
  used = λ b. ltb b 50;
  words = λ b j. if b == 45 then (if j == 0 then 46 else 0) else b + j;
}

abbrev addrs : Addrs
addrs k = if k == 0 then 40 else if k == 12 then 45 else 0

balloc_test : (balloc 60 disk).0 ≡ 50
unfolding balloc mark find_from
balloc_test = refl

entry_test : (entry 60 1 addrs disk).0 ≡ 50
unfolding balloc mark find_from entry
entry_test = refl

addrs-IsFile : IsFile addrs disk
addrs-IsFile = record {
  direct = record {
    taken = λ k lo hi nz. ground arith;
    distinct = λ k l lo hi lo' hi' nz e. ground (arith, nz, e);
  };
  behind = λ nz. record {
    taken = λ k lo hi nz'. ground arith;
    distinct = λ k l lo hi lo' hi' nz' e. ground (arith, nz', e);
  };
  apart = λ nz k l hk hl nz' e. ground (arith, nz', e);
}

itrunc_lem_example :
    (a : Addrs) × (d : Disk) × (itrunc addrs disk ≡ some (a, d))
    × ((k : ℕ) → k ≤ ndirect → a k ≡ 0)
    × Frees (owns addrs disk) disk d
itrunc_lem_example = itrunc_lem addrs disk addrs-IsFile

bmap_lem_example :
    ((ndirect + nindirect ≤ 13) × (bmap 60 13 addrs disk ≡ none))
    ⊎ ((13 < ndirect + nindirect)
        × (b : ℕ) × (a : Addrs) × (d : Disk) × (bmap 60 13 addrs disk ≡ some (b, a, d))
        × IsMapped 60 13 addrs disk b a d)
bmap_lem_example = bmap_lem 60 13 addrs disk refl (λ nz. refl)

holes_none : HasNoHoles 1000 addrs disk
holes_none bn h = (omega (arith, h), ground (arith, h))

-- Three bytes behind the first of a buffer.
readi_test :
    readi to_list 60 1000 addrs disk 1 3 3 (9 ∷ 9 ∷ []) ≡ reads 3 addrs disk (9 ∷ 0 ∷ 41 ∷ 0 ∷ [])
unfolding readi read_rounds read_block bmap entry balloc mark find_from chunk overwrite
readi_test = refl

readi_lem_example :
    readi to_list 60 1000 addrs disk 1 990 20 (9 ∷ [])
    ≡ reads 10 addrs disk (overwrite 1 (content addrs disk 990 10) (9 ∷ []))
readi_lem_example =
    readi_lem 60 1000 addrs disk holes_none 1 990 20 (9 ∷ []) (omega arith) (omega arith)
