-- ===== src/Proc/PsInfo/Layout.antt =====
-- What `ps_info` leaves in the memory of the user.
use jklnkhbv.Base.{
  ℕ, zero, suc, ◌+◌, ◌≤◌, ◌<◌, ◌≡◌, ◌≢◌, ◌⊎◌, true, false, none, some, List, [], ◌∷◌, length,
  update, All, ℤ,
}
use jklnkhbv.Proc.{Kernel, Proc}
use jklnkhbv.Proc.Services.{Services}
use jklnkhbv.Proc.Fork.{err, val}
use jklnkhbv.Proc.PsList.{getppid}
use jklnkhbv.Proc.PsInfo.{fields, ps_info}

abbrev pub Bytes : Type 0
Bytes = ℕ → ℕ

abbrev pub write : ℕ → List ℕ → Bytes → Bytes
write a [] m = m
write a (b ∷ bs) m = update (write (a + 1) bs m) a b

abbrev pub bytes_at : Bytes → ℕ → ℕ → List ℕ
bytes_at m a zero = []
bytes_at m a (suc n) = m a ∷ bytes_at m (a + 1) n

-- The memory holds each field's bytes, one field behind the other.
abbrev pub Stored : Bytes → ℕ → List (ℕ × List ℕ) → Type 0
Stored m addr [] = Unit
Stored m addr ((size, bytes) ∷ fs) =
    (bytes_at m addr (length bytes) ≡ bytes) × Stored m (addr + size) fs

abbrev pub extent : List (ℕ × List ℕ) → ℕ
extent [] = 0
extent ((size, bytes) ∷ fs) = size + extent fs

abbrev pub Outside : ℕ → ℕ → ℕ → Type 0
Outside a n b = (b < a) ⊎ (a + n ≤ b)

module _ {M : Type 0} (sv : Services M) (behind : List ℕ → List ℕ) (mem : M → Bytes) (table : ℕ)
    (stores : (a : ℕ) (bs : List ℕ) (m : M)
      → (sv.copyout table a bs m).0 ≡ true
      → mem (sv.copyout table a bs m).1 ≡ write a bs (mem m)) where
  abbrev AllFit : List (ℕ × List ℕ) → Type 0
  AllFit fs = All (λ (f : ℕ × List ℕ). length f.1 ≤ f.0) fs

  -- What the copies leave.
  abbrev pub Copied : ℕ → List (ℕ × List ℕ) → M → M → Type 0
  Copied addr fs m m' =
      Stored (mem m') addr fs × ((b : ℕ) → Outside addr (extent fs) b → mem m' b ≡ mem m b)

  -- Some copy fails, where those before it have not, and the memory is the one that it leaves.
  abbrev pub Failed : ℕ → List (ℕ × List ℕ) → M → M → Type 0
  Failed addr [] m m' = ⊥
  Failed addr ((size, bytes) ∷ fs) m m' =
      (sv.copyout table addr bytes m ≡ (false, m'))
      ⊎ (((sv.copyout table addr bytes m).0 ≡ true)
          × Failed (addr + size) fs (sv.copyout table addr bytes m).1 m')

  module _ (k : Kernel M) (cur addr : ℕ) (pid : ℤ) where
    -- The parent's pid in the namespace of the process, as `sys_getppid` gives it, or 0.
    abbrev pub IsParentPid : ℕ → ℕ → Type 0
    IsParentPid s ppid =
        (((k.procs s).parent ≡ none) × (ppid ≡ 0))
        ⊎ (((k.procs s).parent ≢ none) × (getppid k s ≡ some ppid))

    abbrev pub report : ℕ → ℕ → List (ℕ × List ℕ)
    report s ppid = fields behind (k.procs s) k.ticks ppid

    -- What `ps_info` comes to for the process in a slot.
    abbrev pub Reported : ℕ → Type 0
    Reported s =
        (ppid : ℕ) × IsParentPid s ppid
        × (m : M) × (((ps_info behind sv k cur pid addr ≡ some (err, record k { rest = m }))
              × Failed addr (report s ppid) k.rest m)
            ⊎ ((ps_info behind sv k cur pid addr ≡ some (val 0, record k { rest = m }))
                × Copied addr (report s ppid) k.rest m))
