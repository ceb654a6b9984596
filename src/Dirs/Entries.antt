-- ===== src/Dirs/Entries.antt =====
-- The search of `dirlookup` of kernel/fs.c against the entries that a directory's bytes hold.
use jklnkhbv.Base.{
  ◌∙◌, ap, ℕ, zero, suc, ◌+◌, ◌-◌, ◌*◌, ◌≤◌, ◌<◌, ◌≡◌, ◌≢◌, refl, subst, true, false, List, [], ◌∷◌,
  ◌==◌, ltb, leb, min, u32_mod, if◌then◌else◌, arith, Bool-cases, inl, inr,
}
use jklnkhbv.Fs.{Addrs, Disk, reads, readi, to_list}
use jklnkhbv.Fs.Content.{content, HasNoHoles, overwrite_start, readi_lem}
use jklnkhbv.Paths.{dirsiz}
use jklnkhbv.Dirs.{
  dirent_size, first, rest_of, agree, namecmp, inum_of, name_of, is_entry, Search, found, absent,
  crash, check_entry, search_entries,
}

-- A C string cut off at `n` bytes.
abbrev pub cut : ℕ → List ℕ → List ℕ
cut zero s = []
cut (suc n) s = if first s == 0 then [] else first s ∷ cut n (rest_of s)

agree→cut : (n : ℕ) (s t : List ℕ) → agree n s t ≡ true → cut n s ≡ cut n t
unfolding agree
agree→cut zero s t h = refl
agree→cut (suc n) s t h = ground (arith, h, agree→cut n (rest_of s) (rest_of t))

cut→agree : (n : ℕ) (s t : List ℕ) → cut n s ≡ cut n t → agree n s t ≡ true
unfolding agree
cut→agree zero s t h = refl
cut→agree (suc n) s t h = ground (arith, h, cut→agree n (rest_of s) (rest_of t))

-- An entry that is in use and has the name.
abbrev pub Matches : List ℕ → List ℕ → Type 0
Matches name bytes = (inum_of bytes ≢ 0) × (cut dirsiz name ≡ cut dirsiz (name_of bytes))

entry→Matches : (name bytes : List ℕ) → is_entry name bytes ≡ true → Matches name bytes
unfolding namecmp
entry→Matches name bytes h =
    let used : (inum_of bytes == 0) ≡ false = ground (arith, h) in
    let same : agree dirsiz name (name_of bytes) ≡ true = ground (arith, h) in
    (ground (arith, used), agree→cut dirsiz name (name_of bytes) same)

Matches→entry : (name bytes : List ℕ) → Matches name bytes → is_entry name bytes ≡ true
unfolding namecmp
Matches→entry name bytes (used, same) =
    let on : (inum_of bytes == 0) ≡ false = ground (arith, used) in
    rw on (cut→agree dirsiz name (name_of bytes) same)

not_entry : (name bytes : List ℕ) → is_entry name bytes ≡ false → ¬ Matches name bytes
not_entry name bytes h m = let both = Matches→entry name bytes m in absurd (ground (arith, h, both))

equal : (j k : ℕ) → (j == k) ≡ true → k ≡ j
equal j k e = ground arith

behind : (j k : ℕ) → k ≤ j → (j == k) ≡ false → suc k ≤ j
behind j k lo ne = ground arith

module _ (size count : ℕ) (a : Addrs) (d : Disk) (name : List ℕ)
    (there : HasNoHoles (count * dirent_size) a d) (small : count * dirent_size < u32_mod) where
  abbrev pub dirent : ℕ → List ℕ
  dirent k = content a d (k * dirent_size) dirent_size

  -- What the search of the entries from number `from` on comes to.
  abbrev pub SearchOutcome : ℕ → Search → Type 0
  SearchOutcome from (found off inum a' d') =
      (a' ≡ a)
      × (d' ≡ d)
      × (k : ℕ) × (from ≤ k)
      × (k < count)
      × (off ≡ k * dirent_size)
      × (inum ≡ inum_of (dirent k))
      × Matches name (dirent k)
      × ((j : ℕ) → from ≤ j → j < k → ¬ Matches name (dirent j))
  SearchOutcome from (absent a' d') =
      (a' ≡ a) × (d' ≡ d) × ((j : ℕ) → from ≤ j → j < count → ¬ Matches name (dirent j))
  SearchOutcome from crash = ⊥

  read_dirent :
      (k : ℕ)
      → k < count
      → readi to_list size (count * dirent_size) a d 0 (k * dirent_size) dirent_size []
        ≡ reads dirent_size a d (dirent k)
  read_dirent k lt =
      let inside : leb (k * dirent_size) (count * dirent_size) ≡ true = ground (arith, lt) in
      let fine : ltb (k * dirent_size + dirent_size) u32_mod ≡ true = ground (arith, lt, small) in
      let whole : min dirent_size (count * dirent_size - k * dirent_size) ≡ dirent_size =
        omega (arith, lt) in
      (rw (inside, fine, whole) at
        (readi_lem size (count * dirent_size) a d there 0 (k * dirent_size) dirent_size [] small
          (omega arith)))
      ∙ ap (reads dirent_size a d) (overwrite_start (dirent k))

  NoneBetween : ℕ → ℕ → Type 0
  NoneBetween from to = (j : ℕ) → from ≤ j → j < to → ¬ Matches name (dirent j)

  one_more : (k to : ℕ) → ¬ Matches name (dirent k) → NoneBetween (suc k) to → NoneBetween k to
  unfolding NoneBetween
  one_more k to no_match before j lo lt = elim (Bool-cases (j == k)) [
    | inl e ↦ subst (λ j. ¬ Matches name (dirent j)) (equal j k e) no_match
    | inr ne ↦ before j (behind j k lo ne) lt
  ]

  -- An entry without the name is passed.
  passed :
      (k : ℕ) (r : Search) → ¬ Matches name (dirent k) → SearchOutcome (suc k) r → SearchOutcome k r
  unfolding NoneBetween
  passed k (found off inum a' d') no_match (ea, ed, l, lo, hi, eo, ei, m, before) =
      (ea, ed, l, omega (arith, lo), hi, eo, ei, m, one_more k l no_match before)
  passed k (absent a' d') no_match (ea, ed, none_there) =
      (ea, ed, one_more k count no_match none_there)
  passed k crash no_match h = h

  check_lem :
      (next : Addrs → Disk → Search) (k : ℕ)
      → k < count
      → SearchOutcome (suc k) (next a d)
      → SearchOutcome k (check_entry next name (k * dirent_size) (reads dirent_size a d (dirent k)))
  unfolding check_entry
  check_lem next k lt h = elim (Bool-cases (is_entry name (dirent k))) [
    | inl hit ↦ rw hit (
      refl,
      refl,
      k,
      omega arith,
      lt,
      refl,
      refl,
      entry→Matches name (dirent k) hit,
      (λ j lo hi. absurd (omega (arith, lo, hi))),
    )
    | inr miss ↦ rw miss (passed k (next a d) (not_entry name (dirent k) miss) h)
  ]

  -- In a directory without holes that has `count` entries, the loop of `dirlookup`, let run once
  -- more than there are entries from number `from` on, comes to its end without a panic. It stops
  -- at the first of these entries that is in use and has the name, up to 14 bytes, and gives its
  -- offset and inode number; it finds nothing exactly if no entry is such a one. The directory's
  -- blocks stay.
  pub search_lem :
      (fuel from : ℕ)
      → from ≤ count
      → count - from < fuel
      → SearchOutcome from
          (search_entries size (count * dirent_size) name fuel (from * dirent_size) a d)
  unfolding search_entries
  search_lem zero from le lt = absurd (omega (arith, lt))
  search_lem (suc fuel) from le lt =
      elim (Bool-cases (ltb (from * dirent_size) (count * dirent_size))) [
        | inr stop ↦
            let all : from ≡ count = ground (arith, le, stop) in
            rw stop (refl, refl, λ j lo hi. absurd (omega (arith, all, lo, hi)))
        | inl more ↦
            let inside : from < count = ground (arith, more) in
            let step : suc from * dirent_size ≡ from * dirent_size + dirent_size = omega arith in
            let ih =
              search_lem fuel (suc from) (omega (arith, inside)) (omega (arith, inside, lt)) in
            let next : Addrs → Disk → Search =
              search_entries size (count * dirent_size) name fuel
                (from * dirent_size + dirent_size) in
            let ih' : SearchOutcome (suc from) (next a d) =
              subst
                (λ o.
                  SearchOutcome (suc from)
                    (search_entries size (count * dirent_size) name fuel o a d))
                step ih in
            rw (more, read_dirent from inside) (check_lem next from inside ih')
      ]
