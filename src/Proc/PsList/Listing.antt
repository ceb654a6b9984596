-- ===== src/Proc/PsList/Listing.antt =====
-- `ps_list` against a description of what it lists.
use jklnkhbv.Base.{
  ℤ, pos, negsuc, ℕ, zero, suc, ◌+◌, ◌-◌, ◌*◌, ◌≤◌, ◌<◌, ◌≡◌, refl, sym, ap, ◌∙◌, true, false, not,
  Bool, Option, some, List, [], ◌∷◌, map, take, length, arith, if◌then◌else◌, is_some→some,
  Bool-cases, inl, inr, ltb, ltb→lt, ◌&&◌,
}
use jklnkhbv.Proc.{Kernel, nproc, is_unused}
use jklnkhbv.Proc.Services.{Services}
use jklnkhbv.Proc.Namespaces.{compare_ns}
use jklnkhbv.Proc.Levels.{at}
use jklnkhbv.Proc.Levels.Numbering.{on_path}
use jklnkhbv.Proc.Levels.Walks.{compare_ns_lem}
use jklnkhbv.Proc.Inv.{Inv, home, depth_of}
use jklnkhbv.Proc.Fork.{err, val}
use jklnkhbv.Proc.Fork.Keeps.{Runs}
use jklnkhbv.Proc.Exit.{int_bytes}
use jklnkhbv.Proc.PsList.{rounds, shown, count_loop, pid_at, list_loop, ps_list}

-- The slots from `s` on, among the next `n`, that pass the test.
pub slots_from : (ℕ → Bool) → ℕ → ℕ → List ℕ
slots_from test zero s = []
slots_from test (suc n) s =
    let rest = slots_from test n (s + 1) in if test s then s ∷ rest else rest

minus_zero : (n : ℕ) → n - 0 ≡ n
minus_zero n = omega arith

take_nil : {A : Type 0} (n : ℕ) → take {A = A} n [] ≡ []
take_nil zero = refl
take_nil (suc n) = refl

room_left : (index limit : ℕ) → ltb index limit ≡ true → limit - index ≡ suc (limit - (index + 1))
room_left index limit h = ground (arith, ltb→lt index limit h)

room_full : (index limit : ℕ) → ltb index limit ≡ false → limit - index ≡ 0
room_full index limit h = ground (arith, h)

-- The first `limit` of these, and none for a negative limit.
abbrev pub wanted : ℤ → List ℕ → List ℕ
wanted (pos n) xs = take n xs
wanted (negsuc n) xs = []

-- To take all and to take more comes to the same.
take_all : (m n : ℕ) (xs : List ℕ) → length xs ≤ m → length xs ≤ n → take m xs ≡ take n xs
take_all m n [] hm hn = take_nil m ∙ sym (take_nil n)
take_all zero n (x ∷ xs) hm hn = absurd (omega (arith, hm))
take_all (suc m) zero (x ∷ xs) hm hn = absurd (omega (arith, hn))
take_all (suc m) (suc n) (x ∷ xs) hm hn =
    ap (λ l. x ∷ l) (take_all m n xs (omega (arith, hm)) (omega (arith, hn)))

module _ {M : Type 0} where
  -- The process in slot `s` is in use and lives in the namespace of the caller or below it.
  abbrev pub in_view : Kernel M → ℕ → ℕ → Bool
  in_view k cur s =
      not (is_unused (k.procs s).state) && on_path k.spaces (depth_of k s) (home k s) (home k cur)

  -- The slots that the caller sees.
  abbrev pub view : Kernel M → ℕ → List ℕ
  view k cur = slots_from (in_view k cur) nproc 0

  -- The global pids of the processes in these slots, or their pids in the caller's namespace.
  abbrev pub pids_of : Kernel M → ℕ → Bool → List ℕ → List ℕ
  pids_of k cur global [] = []
  pids_of k cur true (s ∷ slots) = (k.procs s).pid ∷ pids_of k cur true slots
  pids_of k cur false (s ∷ slots) = (k.procs s).pids (depth_of k cur) ∷ pids_of k cur false slots

  module _ (sv : Services M) where
    -- Copies these numbers to the entries of the array at `addr` from `index` on, up to the first
    -- failure.
    pub copy_pids : ℕ → ℕ → ℕ → List ℕ → M → Bool × M
    copy_pids table addr index [] m = (true, m)
    copy_pids table addr index (n ∷ ns) m =
        let (copied, m') = sv.copyout table (addr + index * 4) (int_bytes n) m in
        let rest = copy_pids table addr (index + 1) ns m' in if copied then rest else (false, m')

    either :
        (table addr index n : ℕ) (m : M) (next : Option (Bool × M)) (listed : Bool × M)
        → next ≡ some listed
        → (if (sv.copyout table (addr + index * 4) (int_bytes n) m).0
            then next
            else some (false, (sv.copyout table (addr + index * 4) (int_bytes n) m).1))
          ≡ some (
              if (sv.copyout table (addr + index * 4) (int_bytes n) m).0
              then listed
              else (false, (sv.copyout table (addr + index * 4) (int_bytes n) m).1))
    either table addr index n m next listed e =
        elim (Bool-cases (sv.copyout table (addr + index * 4) (int_bytes n) m).0) [
          | inl yes_c ↦ rw yes_c e
          | inr no_c ↦ rw no_c refl
        ]

  module _ (k : Kernel M) (cur : ℕ) (v : Inv k) (run : Runs k cur) where
    pub shown_lem : (s : ℕ) → s < nproc → shown k cur s ≡ some (in_view k cur s)
    unfolding shown
    shown_lem s h = elim (Bool-cases (is_unused (k.procs s).state)) [
      | inl free ↦ rw (free, shown)
      | inr live ↦
          let hm = v.homes s h live in
          let e =
            ap (λ o. compare_ns k.spaces o (k.procs cur).ns) (v.placed s h live)
            ∙ ap (compare_ns k.spaces (some (home k s))) (v.placed cur run.slot run.live)
            ∙ compare_ns_lem (depth_of k s) k.spaces (home k s) (home k cur) hm.shallow hm.rooted in
          ground (arith, live, e)
    ]

    count_loop_lem :
        (n s count : ℕ)
        → s + n ≤ nproc
        → count_loop n s k cur count ≡ some (count + length (slots_from (in_view k cur) n s))
    unfolding count_loop slots_from
    count_loop_lem zero s count h = ap some (omega arith)
    count_loop_lem (suc n) s count h = elim (Bool-cases (in_view k cur s)) [
      | inl yes_s ↦
          rw (shown_lem s (omega arith), yes_s)
            (count_loop_lem n (s + 1) (count + 1) (omega arith) ∙ ap some (omega arith))
      | inr no_s ↦
          rw (shown_lem s (omega arith), no_s) (count_loop_lem n (s + 1) count (omega arith))
    ]

    module _ (sv : Services M) (depth table addr limit : ℕ) (global : Bool) where
      abbrev listed : List ℕ → List ℕ
      listed = map (pid_at k depth global)

      list_loop_lem :
          (n s index : ℕ) (m : M)
          → s + n ≤ nproc
          → list_loop sv n s k cur depth table index limit global addr m
            ≡ some (
                copy_pids sv table addr index
                  (listed (take (limit - index) (slots_from (in_view k cur) n s)))
                  m)
      unfolding list_loop slots_from copy_pids
      list_loop_lem zero s index m h = rw take_nil refl
      list_loop_lem (suc n) s index m h = elim (Bool-cases (in_view k cur s)) [
        | inr no_s ↦
            rw (shown_lem s (omega arith), no_s) (list_loop_lem n (s + 1) index m (omega arith))
        | inl yes_s ↦ elim (Bool-cases (ltb index limit)) [
          | inr full ↦
              rw (shown_lem s (omega arith), yes_s, full, room_full index limit full)
                (list_loop_lem n (s + 1) index m (omega arith)
                  ∙ rw (room_full index limit full) refl)
          | inl room ↦
              rw (shown_lem s (omega arith), yes_s, room, room_left index limit room)
                (either sv table addr index (pid_at k depth global s) m _ _
                  (list_loop_lem n (s + 1) (index + 1) _ (omega arith)))
        ]
      ]

    ps_list_at :
        (sv : Services M) (limit : ℤ) (addr : ℕ) (global : Bool) (table : ℕ)
        → (k.procs cur).pagetable ≡ some table
        → let all = view k cur in
          let pids =
            map (pid_at k (depth_of k cur) global) (take (rounds limit (length all)) all) in
          let (copied, m) = copy_pids sv table addr 0 pids k.rest in
          ps_list sv k cur limit addr global
          ≡ some (if copied then val (length all) else err, record k { rest = m })
    unfolding ps_list
    ps_list_at sv limit addr global table e =
        let counted : count_loop nproc 0 k cur 0 ≡ some (length (view k cur)) =
          count_loop_lem nproc 0 0 (omega arith) ∙ ap some (omega arith) in
        rw
          (
            counted,
            v.placed cur run.slot run.live,
            e,
            list_loop_lem sv (depth_of k cur) table addr (rounds limit (length (view k cur))) global
                nproc 0 0 k.rest (omega arith),
            minus_zero (rounds limit (length (view k cur))),
          )
          refl

    wanted_lem : (limit : ℤ) (xs : List ℕ) → take (rounds limit (length xs)) xs ≡ wanted limit xs
    wanted_lem (negsuc n) xs = refl
    wanted_lem (pos n) xs = elim (Bool-cases (ltb (length xs) n)) [
      | inl over ↦ rw over (take_all (length xs) n xs (omega arith) (ground (arith, over)))
      | inr within ↦ rw within refl
    ]

    listed_lem :
        (global : Bool) (xs : List ℕ)
        → map (pid_at k (depth_of k cur) global) xs ≡ pids_of k cur global xs
    listed_lem global [] = refl
    listed_lem true (s ∷ xs) = ap (λ l. (k.procs s).pid ∷ l) (listed_lem true xs)
    listed_lem false (s ∷ xs) =
        ap (λ l. (k.procs s).pids (depth_of k cur) ∷ l) (listed_lem false xs)

    -- In a state that satisfies `Inv` and where the caller runs, `ps_list` returns the number of
    -- processes that are in use and live in the caller's namespace or in one below it, whatever the
    -- limit. It copies the pids of the first of them in slot order, at most `limit` of them and none
    -- for a negative limit: the global pids, or the pids in the caller's namespace. It returns an
    -- error where a copy fails, after which nothing more is copied, and changes only what the copies
    -- change.
    pub ps_list_lem :
        (sv : Services M) (limit : ℤ) (addr : ℕ) (global : Bool)
        → let all = view k cur in
          let pids = pids_of k cur global (wanted limit all) in
          let (copied, m) = copy_pids sv (at (k.procs cur).pagetable) addr 0 pids k.rest in
          ps_list sv k cur limit addr global
          ≡ some (if copied then val (length all) else err, record k { rest = m })
    ps_list_lem sv limit addr global =
        let (table, e) = is_some→some (k.procs cur).pagetable run.table in
        let all = view k cur in
        let run_of =
          ps_list_at sv limit addr global (at (k.procs cur).pagetable)
            (e ∙ ap some (sym (ap at e))) in
        let pids : map (pid_at k (depth_of k cur) global) (take (rounds limit (length all)) all)
            ≡ pids_of k cur global (wanted limit all) =
          ap (λ l. map (pid_at k (depth_of k cur) global) l) (wanted_lem limit all)
          ∙ listed_lem global (wanted limit all) in
        run_of
        ∙ ap
            (λ l.
              let r = copy_pids sv (at (k.procs cur).pagetable) addr 0 l k.rest in
              some (if r.0 then val (length all) else err, record k { rest = r.1 }))
            pids
