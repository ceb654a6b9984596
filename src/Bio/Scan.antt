-- ===== src/Bio/Scan.antt =====
-- The two loops of `bget` of kernel/bio.c against a search in a list.
use jklnkhbv.Base.{
  ℕ, zero, suc, ◌≤◌, ◌<◌, ◌≡◌, ◌≢◌, ◌⊎◌, refl, sym, ap, ◌∙◌, Bool, true, false, some, List, [], ◌∷◌,
  ◌++◌, All, All-left, All-right, All-append, if◌then◌else◌, arith, inl, inr, length, length-append,
  Bool-cases,
}
use jklnkhbv.Bio.{Ring, head, nbuf, scan}
use jklnkhbv.Bio.Links.{Chain, Chain-join, Fresh, IsRing}

pub rev : List ℕ → List ℕ
rev [] = []
rev (x ∷ xs) = rev xs ++ x ∷ []

-- The first that passes the test, or the head.
pub find : (ℕ → Bool) → List ℕ → ℕ
find test [] = head
find test (x ∷ xs) = let rest = find test xs in if test x then x else rest

-- `b` is the first in the list that passes the test.
abbrev pub IsFirst : (ℕ → Bool) → List ℕ → ℕ → Type 0
IsFirst test xs b =
    (before : List ℕ) × (behind : List ℕ) × (xs ≡ before ++ b ∷ behind)
    × (test b ≡ true)
    × All (λ x. test x ≡ false) before

pub find_lem :
    (test : ℕ → Bool) (xs : List ℕ)
    → Fresh head xs
    → ((find test xs ≡ head) × All (λ x. test x ≡ false) xs)
      ⊎ ((find test xs ≢ head) × IsFirst test xs (find test xs))
unfolding find
find_lem test [] f = inl (refl, tt)
find_lem test (x ∷ xs) f = elim (Bool-cases (test x)) [
  | inl hit ↦ rw hit (inr ((λ e. f.0 (sym e)), ([], xs, refl, hit, tt)))
  | inr miss ↦ elim (find_lem test xs f.1) [
    | inl (e, all) ↦ rw miss (inl (e, (refl, all)))
    | inr (ne, (before, behind, e, hit, all)) ↦
        rw miss (inr (ne, (x ∷ before, behind, ap (λ t. x ∷ t) e, hit, (miss, all))))
  ]
]

scan_list :
    (r : Ring) (test : ℕ → Bool) (fuel a : ℕ) (xs : List ℕ)
    → Chain r a xs head
    → Fresh head xs
    → length xs < fuel
    → scan r.next test fuel (r.next a) ≡ some (find test xs)
unfolding scan find
scan_list r test zero a xs ch f lt = absurd (omega arith)
scan_list r test (suc fuel) a [] ch f lt = ground (arith, ch.0)
scan_list r test (suc fuel) a (x ∷ xs) ch f lt =
    let ih = scan_list r test fuel x xs ch.2 f.1 (omega arith) in
    ap (scan r.next test (suc fuel)) ch.0 ∙ ground (arith, f.0, ih)

pub scan_next :
    (r : Ring) (test : ℕ → Bool) (xs : List ℕ)
    → IsRing r xs
    → length xs ≤ nbuf
    → scan r.next test (suc nbuf) (r.next head) ≡ some (find test xs)
scan_next r test xs v le = scan_list r test 31 head xs v.0 v.1 (omega arith)

-- The ring walked backwards.
abbrev mirror : Ring → Ring
mirror r = record { next = r.prev; prev = r.next }

Chain-mirror : (r : Ring) (a c : ℕ) (xs : List ℕ) → Chain r a xs c → Chain (mirror r) c (rev xs) a
unfolding rev
Chain-mirror r a c [] ch = (ch.1, ch.0)
Chain-mirror r a c (x ∷ xs) ch =
    Chain-join (mirror r) c x a (rev xs) [] (Chain-mirror r x c xs ch.2) (ch.1, ch.0)

pub All-rev : (P : ℕ → Type 0) (xs : List ℕ) → All P xs → All P (rev xs)
unfolding rev
All-rev P [] h = tt
All-rev P (x ∷ xs) h = All-append P (rev xs) (x ∷ []) (All-rev P xs h.1) (h.0, tt)

-- From the list backwards.
pub All-rev_back : (P : ℕ → Type 0) (xs : List ℕ) → All P (rev xs) → All P xs
unfolding rev
All-rev_back P [] h = tt
All-rev_back P (x ∷ xs) h =
    ((All-right P (rev xs) (x ∷ []) h).0, All-rev_back P xs (All-left P (rev xs) (x ∷ []) h))

pub Fresh-rev : (p : ℕ) (xs : List ℕ) → Fresh p xs → Fresh p (rev xs)
Fresh-rev p xs f = All-rev (λ x. p ≢ x) xs f

length-rev : (xs : List ℕ) → length (rev xs) ≡ length xs
unfolding rev
length-rev [] = refl
length-rev (x ∷ xs) = omega (arith, length-append (rev xs) (x ∷ []), length-rev xs)

pub scan_prev :
    (r : Ring) (test : ℕ → Bool) (xs : List ℕ)
    → IsRing r xs
    → length xs ≤ nbuf
    → scan r.prev test (suc nbuf) (r.prev head) ≡ some (find test (rev xs))
scan_prev r test xs v le =
    scan_list (mirror r) test 31 head (rev xs) (Chain-mirror r head head xs v.0)
      (Fresh-rev head xs v.1) (omega (arith, length-rev xs))
