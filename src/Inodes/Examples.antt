-- ===== src/Inodes/Examples.antt =====
-- Tests of the inode table, and concrete inputs for its theorems.
use jklnkhbv.Base.{
  ℕ, ◌+◌, ◌<◌, ◌^◌, ◌≡◌, ◌⊎◌, true, false, none, some, ◌==◌, ltb, if◌then◌else◌, arith, refl,
}
use jklnkhbv.Fs.Trunc.{IsFile}
use jklnkhbv.Inodes.{Dinode, Itable, done, sleeps, ninode, look, cached, missing, iget, iput}
use jklnkhbv.Inodes.Table.{IsTable, GetOutcome, iget_lem}
use jklnkhbv.Inodes.Put.{is_last, Drops, IsFreed, iput_lem}

-- A file of one block, without links.
abbrev dinode : Dinode
dinode = record {
  typ = 2;
  major = 0;
  minor = 0;
  nlink = 0;
  size = 100;
  addrs = λ k. if k == 0 then 40 else 0;
}

-- Slot 1 holds inode 7 of device 1, with one reference.
abbrev table : Itable
table = record {
  inode = λ i. record {
    dev = 1;
    inum = 7;
    ref = if i == 1 then 1 else 0;
    lock = record { locked = false; pid = 0 };
    valid = true;
    copy = dinode;
  };
  disk = record { used = λ b. ltb b 50; words = λ b j. 0 };
  dinode = λ n. dinode;
}

table-IsTable : IsTable table
table-IsTable = record {
  small = λ i h. ground arith;
  unique = λ i j hi hj ni nj ed en. ground (arith, ni, nj);
}

look_test : look 1 7 table.inode 3 0 none ≡ cached 1
unfolding look
look_test = refl

missing_test : look 1 8 table.inode 3 0 none ≡ missing (some 0)
unfolding look
missing_test = refl

table_room : (i : ℕ) → i < ninode → (table.inode i).ref + 1 < 2 ^ 31
table_room i h = ground arith

iget_lem_example : GetOutcome 1 7 table table-IsTable table_room (iget 1 7 table)
iget_lem_example = iget_lem 1 7 table table-IsTable table_room

dinode-IsFile : IsFile dinode.addrs table.disk
dinode-IsFile = record {
  direct = record {
    taken = λ k lo hi nz. ground arith;
    distinct = λ k l lo hi lo' hi' nz e. ground (arith, nz, e);
  };
  behind = λ nz. absurd (nz refl);
  apart = λ nz. absurd (nz refl);
}

iput_lem_example :
    ((is_last (table.inode 1) ≡ false)
      × (t : Itable) × (iput 3 1 table ≡ done t)
      × Drops 1 table t
      × (t.disk ≡ table.disk)
      × (t.dinode ≡ table.dinode))
    ⊎ ((is_last (table.inode 1) ≡ true)
        × ((((table.inode 1).lock.locked ≡ true) × (iput 3 1 table ≡ sleeps))
            ⊎ (((table.inode 1).lock.locked ≡ false)
                × (t : Itable) × (iput 3 1 table ≡ done t)
                × Drops 1 table t
                × IsFreed 1 table t)))
iput_lem_example =
    iput_lem 1 table table-IsTable (omega arith) (omega arith) 3 (λ last. dinode-IsFile)
