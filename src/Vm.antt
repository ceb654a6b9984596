-- ===== src/Vm.antt =====
-- The Sv39 page tables of kernel/vm.c.
pub mod Tree
pub mod Cell
pub mod Grow
pub mod Space
pub mod Walk
pub mod Map
pub mod Address
pub mod Unmap
pub mod Resize
mod Examples
use jklnkhbv.Base.{
  ℕ, zero, suc, ◌+◌, ◌-◌, ◌*◌, ◌/◌, ◌%◌, ◌^◌, Bool, true, false, not, Option, none, some, update,
  ◌==◌, ltb, leb, ◌>>=◌, if◌then◌else◌,
}
use jklnkhbv.Proc.{pgsize}
use jklnkhbv.Kalloc.{Kmem, fill, kalloc, kfree}

abbrev pub maxva : ℕ
maxva = 2 ^ 38

-- `PX(level, va)`
unfoldable pub px : ℕ → ℕ → ℕ
px level va = va / 2 ^ (12 + 9 * level) % 512

-- `*pte & PTE_V`
abbrev pub is_valid : ℕ → Bool
is_valid pte = pte % 2 == 1

-- `PTE2PA(pte)`
abbrev pub pte2pa : ℕ → ℕ
pte2pa pte = pte / 2 ^ 10 * 2 ^ 12 % 2 ^ 64

-- `PA2PTE(pa)`
abbrev pub pa2pte : ℕ → ℕ
pa2pte pa = pa / 2 ^ 12 * 2 ^ 10

-- `&pagetable[PX(level, va)]`
abbrev pub entry : ℕ → ℕ → ℕ → ℕ
entry table level va = table + 8 * px level va

-- A round of the loop of `walk`, at the entry `pte`: the table to go on with, or 0 as `none`.
unfoldable pub descend : Bool → ℕ → Kmem → Option ℕ × Kmem
descend alloc pte k =
    let (page, k1) = kalloc k in
    let cleared = fill page 0 k1.mem in
    if is_valid (k.mem pte)
    then (some (pte2pa (k.mem pte)), k)
    else if not alloc
    then (none, k)
    else if page == 0
    then (none, k1)
    else (some page, record k1 { mem = update cleared pte (pa2pte page + 1) })

abbrev pub go_on : (ℕ → Kmem → Option ℕ × Kmem) → Option ℕ × Kmem → Option ℕ × Kmem
go_on next (none, k) = (none, k)
go_on next (some table, k) = next table k

-- The loop of `walk` from a level on, and its last line.
unfoldable pub walk_from : ℕ → ℕ → Bool → ℕ → Kmem → Option ℕ × Kmem
walk_from zero va alloc table k = (some (entry table 0 va), k)
walk_from (suc level) va alloc table k =
    go_on (walk_from level va alloc) (descend alloc (entry table (suc level) va) k)

-- The address of an entry, or 0 as `none`. The outer `none` is a panic.
unfoldable pub walk : ℕ → ℕ → Bool → Kmem → Option (Option ℕ × Kmem)
walk table va alloc k = if leb maxva va then none else some (walk_from 2 va alloc table k)

abbrev pub round_down : ℕ → ℕ
round_down a = a / pgsize * pgsize

abbrev pub add64 : ℕ → ℕ → ℕ
add64 a b = (a + b) % 2 ^ 64

-- `PA2PTE(pa) | perm | PTE_V`, for flags below bit 10.
abbrev pub leaf : ℕ → ℕ → ℕ
leaf pa perm = pa2pte pa + (if is_valid perm then perm else perm + 1)

-- How `mappages` ends: with 0, with -1, or in a panic. A loop whose fuel has run out has no result
-- either.
pub data Mapping : Type 0 where
  mapped : Kmem → Mapping
  short : Kmem → Mapping
  crash : Mapping

abbrev pub then_map : Mapping → (Kmem → Mapping) → Mapping
then_map (mapped k) next = next k
then_map (short k) next = short k
then_map crash next = crash

-- `if(*pte & PTE_V) panic("remap"); *pte = ...` of `mappages`, with what `walk` returns.
unfoldable pub map_entry : ℕ → ℕ → Option (Option ℕ × Kmem) → Mapping
map_entry pa perm none = crash
map_entry pa perm (some (none, k)) = short k
map_entry pa perm (some (some pte, k)) =
    if is_valid (k.mem pte)
    then crash
    else mapped (record k { mem = update k.mem pte (leaf pa perm) })

-- The loop of `mappages`, on fuel.
unfoldable pub map_loop : ℕ → ℕ → ℕ → ℕ → ℕ → ℕ → Kmem → Mapping
map_loop zero table a last pa perm k = crash
map_loop (suc fuel) table a last pa perm k =
    then_map (map_entry pa perm (walk table a true k)) λ k1. elim (a == last) [
      | true ↦ mapped k1
      | false ↦ map_loop fuel table (add64 a pgsize) last (add64 pa pgsize) perm k1
    ]

unfoldable pub mappages : ℕ → ℕ → ℕ → ℕ → ℕ → Kmem → Mapping
mappages table va size pa perm k =
    let a = round_down va in
    let last = round_down ((va + size + 2 ^ 64 - 1) % 2 ^ 64) in
    if size == 0 then crash else map_loop (suc (maxva / pgsize)) table a last pa perm k

-- `*pte & PTE_U`
abbrev pub is_user : ℕ → Bool
is_user pte = pte / 2 ^ 4 % 2 == 1

-- The rest of `walkaddr`, with what `walk` returns. The null pointer and no mapping are 0.
unfoldable pub user_page : Option (Option ℕ × Kmem) → ℕ
user_page none = 0
user_page (some (none, k)) = 0
user_page (some (some pte, k)) =
    if not (is_valid (k.mem pte))
    then 0
    else if not (is_user (k.mem pte))
    then 0
    else pte2pa (k.mem pte)

unfoldable pub walkaddr : ℕ → ℕ → Kmem → ℕ
walkaddr table va k = if leb maxva va then 0 else user_page (walk table va false k)

-- A round of the loop of `uvmunmap`, with what `walk` returns; `end` is the first address after the
-- kernel. `none` is a panic.
unfoldable pub unmap_entry : ℕ → Bool → Option (Option ℕ × Kmem) → Option Kmem
unmap_entry end do_free none = none
unmap_entry end do_free (some (none, k)) = none
unmap_entry end do_free (some (some pte, k)) =
    let w = k.mem pte in
    if not (is_valid w)
    then none
    else if w % 2 ^ 10 == 1
    then none
    else ((if do_free then kfree end (pte2pa w) k else some k) >>= λ k1.
        some (record k1 { mem = update k1.mem pte 0 }))

-- Its loop, for `npages` pages from `a` on.
unfoldable pub unmap_loop : ℕ → Bool → ℕ → ℕ → ℕ → Kmem → Option Kmem
unmap_loop end do_free table zero a k = some k
unmap_loop end do_free table (suc npages) a k =
    unmap_entry end do_free (walk table a false k) >>= λ k1.
    unmap_loop end do_free table npages (a + pgsize) k1

-- `none` is a panic.
unfoldable pub uvmunmap : ℕ → ℕ → ℕ → ℕ → Bool → Kmem → Option Kmem
uvmunmap end table va npages do_free k =
    if va % pgsize == 0 then unmap_loop end do_free table npages va k else none
