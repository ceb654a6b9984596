-- ===== src/Dirs/Examples.antt =====
-- Tests of the search of directories, and a concrete directory for its theorem.
use jklnkhbv.Base.{
  ℕ, ◌+◌, ◌*◌, ◌<◌, ◌≡◌, true, false, [], ◌∷◌, ◌==◌, ltb, if◌then◌else◌, arith, refl, u32_mod,
}
use jklnkhbv.Fs.Content.{HasNoHoles}
use jklnkhbv.Inodes.{Dinode, Itable}
use jklnkhbv.Dirs.{agree, namecmp, dirlookup}
use jklnkhbv.Dirs.Lookup.{LookupOutcome, dirlookup_lem}

abbrev a : ℕ
a = 97

abbrev b : ℕ
b = 98

namecmp_test : namecmp (a ∷ b ∷ []) (a ∷ b ∷ 0 ∷ a ∷ []) ≡ true
unfolding namecmp agree
namecmp_test = refl

namecmp_shorter : namecmp (a ∷ []) (a ∷ b ∷ 0 ∷ []) ≡ false
unfolding namecmp agree
namecmp_shorter = refl

-- Two entries, of which the first is for inode 7 and has the name "a".
abbrev directory : Dinode
directory = record {
  typ = 1;
  major = 0;
  minor = 0;
  nlink = 1;
  size = 32;
  addrs = λ k. if k == 0 then 40 else 0;
}

abbrev table : Itable
table = record {
  inode = λ i. record {
    dev = 1;
    inum = 1;
    ref = if i == 0 then 1 else 0;
    lock = record { locked = true; pid = 3 };
    valid = true;
    copy = directory;
  };
  disk = record {
    used = λ b. ltb b 50;
    words = λ b j. if b == 40 then if j == 0 then 7 + 97 * 65536 else 0 else 0;
  };
  dinode = λ n. directory;
}

directory-HasNoHoles : HasNoHoles 32 directory.addrs table.disk
directory-HasNoHoles bn h = (omega (arith, h), ground (arith, h))

few : 32 < u32_mod
few = omega arith

dirlookup_lem_example : LookupOutcome 60 2 0 (a ∷ []) table (dirlookup 60 0 (a ∷ []) table)
dirlookup_lem_example = dirlookup_lem 60 2 0 (a ∷ []) table directory-HasNoHoles few refl refl
