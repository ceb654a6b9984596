-- ===== src/Dirs/Lookup.antt =====
-- `dirlookup` of kernel/fs.c against the entries that the bytes of a directory hold.
use jklnkhbv.Base.{
  ℕ, suc, ◌*◌, ◌<◌, ◌≡◌, ◌⊎◌, ap, true, List, ◌==◌, u32_mod, arith, eq→==, update_same, inl, inr,
}
use jklnkhbv.Fs.{Addrs}
use jklnkhbv.Fs.Content.{content, HasNoHoles}
use jklnkhbv.Dirs.{
  dirent_size, inum_of, Search, found, absent, crash, search_entries, Found, no_entry, got,
  set_content, finish, dirlookup, t_dir,
}
use jklnkhbv.Dirs.Entries.{Matches, SearchOutcome, search_lem}
use jklnkhbv.Inodes.{Itable, iget}

-- A write of what is there.
set_content_same : (dp : ℕ) (t : Itable) → set_content dp (t.inode dp).copy.addrs t.disk t ≡ t
set_content_same dp t = ap (λ f. record t { inode = f }) (update_same t.inode dp)

finish_found :
    (dp off inum : ℕ) (t : Itable)
    → finish dp t (found off inum (t.inode dp).copy.addrs t.disk)
      ≡ got off (iget (t.inode dp).dev inum t)
unfolding finish
finish_found dp off inum t =
    ap (λ t'. got off (iget (t.inode dp).dev inum t')) (set_content_same dp t)

finish_absent :
    (dp : ℕ) (t : Itable) → finish dp t (absent (t.inode dp).copy.addrs t.disk) ≡ no_entry t
unfolding finish
finish_absent dp t = ap no_entry (set_content_same dp t)

module _ (size count dp : ℕ) (name : List ℕ) (t : Itable) where
  abbrev entries : ℕ → List ℕ
  entries k = content (t.inode dp).copy.addrs t.disk (k * dirent_size) dirent_size

  -- What `dirlookup` comes to.
  abbrev pub LookupOutcome : Found → Type 0
  LookupOutcome r =
      ((k : ℕ) × (k < count)
        × Matches name (entries k)
        × ((j : ℕ) → j < k → ¬ Matches name (entries j))
        × (r ≡ got (k * dirent_size) (iget (t.inode dp).dev (inum_of (entries k)) t)))
      ⊎ (((j : ℕ) → j < count → ¬ Matches name (entries j)) × (r ≡ no_entry t))

  module _ (there : HasNoHoles (count * dirent_size) (t.inode dp).copy.addrs t.disk)
      (small : count * dirent_size < u32_mod) where
    finish_lem :
        (s : Search)
        → SearchOutcome size count (t.inode dp).copy.addrs t.disk name there small 0 s
        → LookupOutcome (finish dp t s)
    finish_lem (found off inum a d) (ea, ed, k, lo, hi, eo, ei, m, before) = inl (
      k,
      hi,
      m,
      (λ j lt. before j (omega arith) lt),
      rw (ea, ed, eo, ei) (finish_found dp (k * dirent_size) (inum_of (entries k)) t),
    )
    finish_lem crash h = elim h [ ]
    finish_lem (absent a d) (ea, ed, none_there) =
        inr ((λ j lt. none_there j (omega arith) lt), rw (ea, ed) (finish_absent dp t))

    -- In a directory without holes, of fewer than 2 ^ 32 bytes, that has `count` entries,
    -- `dirlookup` finds the first entry that is in use and has the name, up to 14 bytes: it comes
    -- to what `iget` does for that entry's inode, with the entry's offset. If there is no such
    -- entry, it returns 0. The directory and the disk stay.
    pub dirlookup_lem :
        (t.inode dp).copy.typ ≡ t_dir
        → (t.inode dp).copy.size ≡ count * dirent_size
        → LookupOutcome (dirlookup size dp name t)
    unfolding dirlookup
    dirlookup_lem is_dir whole =
        let dir : ((t.inode dp).copy.typ == t_dir) ≡ true = eq→== _ t_dir is_dir in
        let addrs : Addrs = (t.inode dp).copy.addrs in
        let run =
          search_lem size count addrs t.disk name there small (suc (count * dirent_size)) 0
            (omega arith) (omega arith) in
        rw (dir, whole)
          (finish_lem
            (search_entries size (count * dirent_size) name (suc (count * dirent_size)) 0 addrs
              t.disk)
            run)
