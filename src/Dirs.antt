-- ===== src/Dirs.antt =====
-- Directories, of kernel/fs.c.
pub mod Entries
pub mod Lookup
mod Examples
use jklnkhbv.Base.{
  ℕ, zero, suc, ◌+◌, ◌*◌, Bool, true, false, not, Option, none, some, List, [], ◌∷◌, ◌==◌, ltb,
  ◌&&◌, if◌then◌else◌,
}
use jklnkhbv.Fs.{Addrs, Disk, Readi, reads, fails, stuck, readi, to_list}
use jklnkhbv.Inodes.{Itable, set_inode, iget}
use jklnkhbv.Paths.{dirsiz}

abbrev pub t_dir : ℕ
t_dir = 1

-- `sizeof(struct dirent)`
abbrev pub dirent_size : ℕ
dirent_size = 16

-- The byte at a pointer into a C string, which ends in a 0, and the pointer behind it.
abbrev pub first : List ℕ → ℕ
first [] = 0
first (c ∷ s) = c

abbrev pub rest_of : List ℕ → List ℕ
rest_of [] = []
rest_of (c ∷ s) = s

-- Whether `strncmp(s, t, n)` is 0.
unfoldable pub agree : ℕ → List ℕ → List ℕ → Bool
agree zero s t = true
agree (suc n) s t =
    let rest = agree n (rest_of s) (rest_of t) in
    if not (first s == 0) && first s == first t then rest else first s == first t

-- Whether `namecmp(s, t)` is 0.
unfoldable pub namecmp : List ℕ → List ℕ → Bool
namecmp s t = agree dirsiz s t

-- The fields of a `struct dirent`, from its bytes.
abbrev pub inum_of : List ℕ → ℕ
inum_of (x ∷ y ∷ name) = x + 256 * y
inum_of (x ∷ []) = 0
inum_of [] = 0

abbrev pub name_of : List ℕ → List ℕ
name_of (x ∷ y ∷ name) = name
name_of (x ∷ []) = []
name_of [] = []

abbrev pub is_entry : List ℕ → List ℕ → Bool
is_entry name bytes = not (inum_of bytes == 0) && namecmp name (name_of bytes)

-- What the loop of `dirlookup` comes to: the offset and the number of the entry with the name, or
-- none; or a panic. A loop whose fuel has run out has no result either.
pub data Search : Type 0 where
  found : ℕ → ℕ → Addrs → Disk → Search
  absent : Addrs → Disk → Search
  crash : Search

-- The body of the loop, with what `readi` returns; `next` is the next round.
unfoldable pub check_entry : (Addrs → Disk → Search) → List ℕ → ℕ → Readi (List ℕ) → Search
check_entry next name off (reads k a d bytes) =
    if k == dirent_size
    then (if is_entry name bytes then found off (inum_of bytes) a d else next a d)
    else crash
check_entry next name off (fails a d bytes) = crash
check_entry next name off stuck = crash

-- The loop, on fuel. `length` is `dp->size`.
unfoldable pub search_entries : ℕ → ℕ → List ℕ → ℕ → ℕ → Addrs → Disk → Search
search_entries size length name zero off a d = crash
search_entries size length name (suc fuel) off a d =
    if ltb off length
    then check_entry (search_entries size length name fuel (off + dirent_size)) name off
        (readi to_list size length a d 0 off dirent_size [])
    else absent a d

-- How `dirlookup` ends.
pub data Found : Type 0 where
  entry_at : ℕ → ℕ → Itable → Found
  no_entry : Itable → Found
  panics : Found

abbrev pub set_content : ℕ → Addrs → Disk → Itable → Itable
set_content dp a d t =
    let x = t.inode dp in
    record (set_inode dp (record x { copy = record x.copy { addrs = a } }) t) { disk = d }

abbrev pub got : ℕ → Option (ℕ × Itable) → Found
got off none = panics
got off (some (i, t)) = entry_at off i t

unfoldable pub finish : ℕ → Itable → Search → Found
finish dp t (found off inum a d) = got off (iget (t.inode dp).dev inum (set_content dp a d t))
finish dp t (absent a d) = no_entry (set_content dp a d t)
finish dp t crash = panics

unfoldable pub dirlookup : ℕ → ℕ → List ℕ → Itable → Found
dirlookup size dp name t =
    let x = (t.inode dp).copy in
    if x.typ == t_dir
    then finish dp t (search_entries size x.size name (suc x.size) 0 x.addrs t.disk)
    else panics
