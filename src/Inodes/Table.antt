-- ===== src/Inodes/Table.antt =====
-- `iget` of kernel/fs.c on the table of inodes.
use jklnkhbv.Base.{
  ℕ, zero, suc, ◌+◌, ◌^◌, ◌≤◌, ◌<◌, ◌≡◌, ◌≢◌, ◌⊎◌, inl, inr, refl, ap, ◌∙◌, Bool, true, false, not,
  Option, none, some, find_from, find_from-some, find_from-none, ◌==◌, ◌&&◌, is_some, if◌then◌else◌,
  arith, Bool-cases, Option-cases, subst, sym, find_from-first,
}
use jklnkhbv.Inodes.{ninode, Inode, Itable, missing, cached, is_inode, look, idup, place, iget}

-- An inode is at one place at most of those with references, and the references are below 2 ^ 31.
pub record IsTable (t : Itable) : Type 0 where
  pub small : (i : ℕ) → i < ninode → (t.inode i).ref < 2 ^ 31
  pub unique :
      (i j : ℕ)
      → i < ninode
      → j < ninode
      → (t.inode i).ref ≢ 0
      → (t.inode j).ref ≢ 0
      → (t.inode i).dev ≡ (t.inode j).dev
      → (t.inode i).inum ≡ (t.inode j).inum
      → i ≡ j

abbrev unused : (ℕ → Inode) → ℕ → Bool
unused inode i = (inode i).ref == 0

or_else : Option ℕ → Option ℕ → Option ℕ
or_else none o = o
or_else (some i) o = some i

module _ (dev inum : ℕ) (inode : ℕ → Inode) where
  look_lem :
      (n i : ℕ) (empty : Option ℕ)
      → ((s : ℕ) × (i ≤ s)
          × (s < i + n)
          × (is_inode dev inum (inode s) ≡ true)
          × (look dev inum inode n i empty ≡ cached s))
        ⊎ (((k : ℕ) → i ≤ k → k < i + n → is_inode dev inum (inode k) ≡ false)
            × (look dev inum inode n i empty
                ≡ missing (or_else empty (find_from (unused inode) n i))))
  unfolding look find_from or_else
  look_lem zero i none = inr ((λ k lo hi. absurd (omega (arith, lo, hi))), refl)
  look_lem zero i (some e) = inr ((λ k lo hi. absurd (omega (arith, lo, hi))), refl)
  look_lem (suc n) i empty =
      let next : Option ℕ = if not (is_some empty) && (inode i).ref == 0 then some i else empty in
      elim (Bool-cases (is_inode dev inum (inode i))) [
        | inl hit ↦ inl (i, omega arith, omega arith, hit, rw hit refl)
        | inr miss ↦ elim (look_lem n (i + 1) next) [
          | inl (s, lo, hi, hit, e) ↦ inl (s, omega (arith, lo), omega (arith, hi), hit, rw miss e)
          | inr (others, e) ↦ inr (
            (λ k lo hi. ground (arith, miss, others k, lo, hi)),
            rw miss (e ∙ ap missing (ground arith)),
          )
        ]
      ]

module _ (dev inum : ℕ) (t : Itable) (v : IsTable t)
    (room : (i : ℕ) → i < ninode → (t.inode i).ref + 1 < 2 ^ 31) where
  abbrev NotHeld : Type 0
  NotHeld = (k : ℕ) → k < ninode → is_inode dev inum (t.inode k) ≡ false

  -- What `iget` comes to.
  abbrev pub GetOutcome : Option (ℕ × Itable) → Type 0
  GetOutcome none = NotHeld × ((k : ℕ) → k < ninode → (t.inode k).ref ≢ 0)
  GetOutcome (some (s, t')) =
      (s < ninode)
      × IsTable t'
      × ((k : ℕ) → k ≢ s → t'.inode k ≡ t.inode k)
      × (t'.disk ≡ t.disk)
      × (t'.dinode ≡ t.dinode)
      × (((is_inode dev inum (t.inode s) ≡ true)
            × (t'.inode s ≡ record (t.inode s) { ref = (t.inode s).ref + 1 }))
          ⊎ (NotHeld
              × ((t.inode s).ref ≡ 0)
              × ((k : ℕ) → k < s → (t.inode k).ref ≢ 0)
              × (t'.inode s
                  ≡ record (t.inode s) { dev = dev; inum = inum; ref = 1; valid = false })))

  held_lem :
      (s : ℕ)
      → s < ninode
      → is_inode dev inum (t.inode s) ≡ true
      → GetOutcome (place dev inum t (cached s))
  unfolding place idup
  held_lem s lt hit = (
    lt,
    record {
      small = λ i h. ground (arith, room s lt, v.small i h);
      unique = λ i j hi hj ni nj ed en.
          v.unique i j hi hj (ground (arith, ni, hit)) (ground (arith, nj, hit))
            (ground (arith, ed)) (ground (arith, en));
    },
    (λ k ne. ground (arith, ne)),
    refl,
    refl,
    inl (hit, ground (arith, room s lt)),
  )

  vacant_lem :
      (s : ℕ)
      → NotHeld
      → find_from (unused t.inode) ninode 0 ≡ some s
      → GetOutcome (place dev inum t (missing (some s)))
  unfolding place
  vacant_lem s others e =
      let found = find_from-some (unused t.inode) ninode 0 s e in
      (
        omega (arith, found.2),
        record {
          small = λ i h. ground (arith, v.small i h);
          unique = λ i j hi hj ni nj ed en. ground (
            arith,
            others i hi,
            others j hj,
            v.unique i j hi hj,
            v.small i hi,
            v.small j hj,
            ni,
            nj,
            ed,
            en,
          );
        },
        (λ k ne. ground (arith, ne)),
        refl,
        refl,
        inr (
          others,
          ground (arith, found.0),
          (λ k lt.
              ground (arith, find_from-first (unused t.inode) ninode 0 s k e (omega arith) lt)),
          ground arith,
        ),
      )

  -- On a table that holds each inode at most once, with references far from 2 ^ 31, `iget` keeps
  -- it so. If the inode is held with references, it gets one more. Else the first slot without
  -- references becomes the inode's, as not read yet, with one reference. Nothing else changes. It
  -- is a panic exactly if the inode is not held and every slot has references.
  pub iget_lem : GetOutcome (iget dev inum t)
  unfolding iget
  iget_lem = elim (look_lem dev inum t.inode ninode 0 none) [
    | inl (s, lo, hi, hit, e) ↦
        subst (λ f. GetOutcome (place dev inum t f)) (sym e) (held_lem s (omega (arith, hi)) hit)
    | inr (others, e) ↦
        let no_one : NotHeld = λ k h. others k (omega arith) (omega (arith, h)) in
        subst (λ f. GetOutcome (place dev inum t f)) (sym e)
          (elim (Option-cases (find_from (unused t.inode) ninode 0)) [
            | inl full ↦
                unfold place or_else in
                rw full (
                  no_one,
                  λ k h. ground (
                    arith,
                    find_from-none (unused t.inode) ninode 0 k full (omega arith)
                        (omega (arith, h)),
                  ),
                )
            | inr (s, here) ↦ unfold or_else in rw here (vacant_lem s no_one here)
          ])
  ]
