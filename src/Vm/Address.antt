-- ===== src/Vm/Address.antt =====
-- `walkaddr` of kernel/vm.c, on the map that a page table stands for, and after `mappages`.
use jklnkhbv.Base.{
  ℕ, suc, ◌+◌, ◌-◌, ◌*◌, ◌/◌, ◌%◌, ◌^◌, ◌<◌, ◌≤◌, ◌≡◌, inl, inr, refl, sym, ap, ◌∙◌, Bool, true,
  false, List, if◌then◌else◌, arith, Bool-cases, ltb, leb, ◌&&◌, subst,
}
use jklnkhbv.Proc.{pgsize}
use jklnkhbv.Kalloc.{Kmem}
use jklnkhbv.Vm.{
  maxva, is_valid, is_user, walk, walkaddr, user_page, leaf, pte2pa, mapped, mappages, round_down,
}
use jklnkhbv.Vm.Cell.{IsCell-lookup}
use jklnkhbv.Vm.Walk.{find_lem}
use jklnkhbv.Vm.Map.{entry_at, Maps, Space, further, MapOutcome, AllFree, mappages_lem}

-- The page that a user may access through an entry, or 0.
abbrev pub page_of : ℕ → ℕ
page_of w = if is_valid w && is_user w then pte2pa w else 0

pub walkaddr_lem :
    (table va : ℕ) (k : Kmem) → va < maxva → walkaddr table va k ≡ page_of (entry_at k table va)
unfolding walkaddr walk user_page
walkaddr_lem table va k lt =
    let inside : leb maxva va ≡ false = ground (arith, lt) in
    elim (find_lem 2 va table k) [
      | inl (e, z) ↦ rw (inside, e, z) refl
      | inr (a, e, c) ↦
          let at = IsCell-lookup k.mem 2 va table a c in rw (inside, e, at) (ground arith)
    ]

page_of-leaf :
    (pa perm : ℕ)
    → pa % pgsize ≡ 0
    → pa < 2 ^ 64
    → perm < 2 ^ 10
    → perm / 2 ^ 4 % 2 ≡ 1
    → page_of (leaf pa perm) ≡ pa
page_of-leaf pa perm al lt low user =
    let on : is_valid (leaf pa perm) ≡ true = ground (arith, low) in
    let open_to : is_user (leaf pa perm) ≡ true = ground (arith, low, user) in
    rw (on, open_to) (ground (arith, low, al, lt))

module _ (end : ℕ) (low : 0 < end) (table perm va size pa : ℕ) (k k' : Kmem) (pages : List ℕ) where
  -- Where `mappages` of such a range has returned 0, and the flags are for the user: `walkaddr` of
  -- an address in a page of the range gives the page, counted from `pa`, that belongs to it. For
  -- every other address it gives what it gave before.
  pub walkaddr-mappages :
      Space end low table k pages
      → 0 < size
      → va + size ≤ maxva
      → pa + size + pgsize < 2 ^ 64 - pgsize
      → AllFree table (suc (further va size)) (round_down va) k
      → pa % pgsize ≡ 0
      → perm < 2 ^ 10
      → perm / 2 ^ 4 % 2 ≡ 1
      → mappages table va size pa perm k ≡ mapped k'
      → (addr : ℕ) → addr < maxva
      → walkaddr table addr k' ≡ (
          if leb (round_down va) addr && ltb addr (round_down va + suc (further va size) * pgsize)
          then pa + (addr - round_down va) / pgsize * pgsize
          else walkaddr table addr k)
  walkaddr-mappages s pos fits small free al flags user e addr lt =
      let (pages', m) : (pages' : List ℕ) × Maps end low table (suc (further va size))
            (round_down va) pa perm k pages k' pages' =
        subst (MapOutcome end low table (suc (further va size)) (round_down va) pa perm k pages) e
          (mappages_lem end low table perm va size pa k pages s pos fits small free) in
      let at : ℕ = pa + (addr - round_down va) / pgsize * pgsize in
      let range : Bool =
        leb (round_down va) addr && ltb addr (round_down va + suc (further va size) * pgsize) in
      elim (Bool-cases range) [
        | inl inside ↦
            let below : at < 2 ^ 64 = ground (arith, inside, small, pos) in
            let aligned : at % pgsize ≡ 0 = omega (arith, al) in
            let now : entry_at k' table addr ≡ leaf at perm = m.reads addr lt ∙ rw inside refl in
            rw inside (
              walkaddr_lem table addr k' lt
              ∙ ap page_of now
              ∙ page_of-leaf at perm aligned below flags user)
        | inr out ↦
            let now : entry_at k' table addr ≡ entry_at k table addr =
              m.reads addr lt ∙ rw out refl in
            rw out
              (walkaddr_lem table addr k' lt ∙ ap page_of now ∙ sym (walkaddr_lem table addr k lt))
      ]
