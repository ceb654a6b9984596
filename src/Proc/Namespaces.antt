-- ===== src/Proc/Namespaces.antt =====
-- The functions of kernel/proc.c on the table of namespaces.
use jklnkhbv.Base.{
  ℕ, zero, suc, ◌+◌, Bool, true, false, not, Option, none, some, update, same, find_from, ltb, ◌&&◌,
  if◌then◌else◌,
}
use jklnkhbv.Proc.{Namespace, Kernel, numns}

-- One more process: the next pid of the namespace is given away.
abbrev pub take_pid : Namespace → Namespace
take_pid n = record n { next_ns_pid = n.next_ns_pid + 1; num_proc = n.num_proc + 1 }

-- The loop of `allocproc` over `i = rounds - 1, …, 0`, from the namespace that `curr_ns` points
-- to. `none` is the use of a null pointer.
unfoldable pub number_levels :
    ℕ → Option ℕ → (ℕ → ℕ) → (ℕ → Namespace) → Option ((ℕ → ℕ) × (ℕ → Namespace))
number_levels zero curr_ns pids spaces = some (pids, spaces)
number_levels (suc i) none pids spaces = none
number_levels (suc i) (some a) pids spaces =
    number_levels i (spaces a).parent (update pids i (spaces a).next_ns_pid)
      (update spaces a (take_pid (spaces a)))

-- The loop of `compare_ns` on fuel, which `none` says has run out.
unfoldable pub compare_loop : ℕ → (ℕ → Namespace) → Option ℕ → Option ℕ → Option Bool
compare_loop zero spaces ns ns2 = none
compare_loop (suc fuel) spaces none ns2 = some false
compare_loop (suc fuel) spaces (some a) ns2 =
    let rest = compare_loop fuel spaces (spaces a).parent ns2 in
    if same (some a) ns2 then some true else rest

unfoldable pub compare_ns : (ℕ → Namespace) → Option ℕ → Option ℕ → Option Bool
compare_ns spaces ns1 ns2 = compare_loop numns spaces ns1 ns2

abbrev pub is_null : Option ℕ → Bool
is_null none = true
is_null (some a) = false

-- The loop of `get_ns_head` on fuel. `none` says that the fuel has run out, or that a null pointer
-- is used.
unfoldable pub head_loop : ℕ → (ℕ → Namespace) → Option ℕ → Option (Option ℕ)
head_loop zero spaces ns = none
head_loop (suc fuel) spaces none = none
head_loop (suc fuel) spaces (some a) =
    let rest = head_loop fuel spaces (spaces a).parent in
    if ltb 0 (spaces a).depth && is_null (spaces a).head then rest else some (spaces a).head

unfoldable pub get_ns_head : (ℕ → Namespace) → Option ℕ → Option (Option ℕ)
get_ns_head spaces ns = head_loop numns spaces ns

-- A namespace as `allocnamespace` sets it up.
abbrev pub fresh_namespace : ℕ → Namespace
fresh_namespace id = record {
  parent = none;
  head = none;
  ns_id = id;
  depth = 0;
  used = true;
  next_ns_pid = 1;
  num_proc = 0;
}

module _ {M : Type 0} where
  -- `allocpid` and `allocnamespaceid`: the number handed out, and the counter after it.
  abbrev pub allocpid : Kernel M → ℕ × Kernel M
  allocpid k = (k.nextpid, record k { nextpid = k.nextpid + 1 })

  abbrev pub allocnamespaceid : Kernel M → ℕ × Kernel M
  allocnamespaceid k = (k.nextnamespace, record k { nextnamespace = k.nextnamespace + 1 })

  unfoldable pub allocnamespace : Kernel M → Option ℕ × Kernel M
  allocnamespace k = elim (find_from (λ a. not (k.spaces a).used) numns 0) [
    | none ↦ (none, k)
    | some a ↦
        let (id, k1) = allocnamespaceid k in
        (some a, record k1 { spaces = update k1.spaces a (fresh_namespace id) })
  ]
