-- ===== src/Pipe.antt =====
-- The pipes of kernel/pipe.c.
pub mod Ring
pub mod Transfer
pub mod Reading
mod Examples
use jklnkhbv.Base.{
  ℕ, zero, suc, ◌+◌, ◌%◌, Bool, true, false, not, Option, none, some, List, [], ◌∷◌, update, add32,
  ◌==◌, ◌&&◌, ◌||◌, if◌then◌else◌,
}
use jklnkhbv.Proc.{Chan}
use jklnkhbv.Proc.Services.{Services}

abbrev pub pipesize : ℕ
pipesize = 512

pub record Pipe : Type 0 where
  pub cells : ℕ → ℕ
  pub nread : ℕ
  pub nwrite : ℕ
  pub readopen : Bool
  pub writeopen : Bool

-- What `pipealloc` sets in the new page, which held `junk`.
unfoldable pub new_pipe : (ℕ → ℕ) → Pipe
new_pipe junk = record { cells = junk; nread = 0; nwrite = 0; readopen = true; writeopen = true }

-- `pi->nwrite == pi->nread + PIPESIZE`
abbrev pub is_full : Pipe → Bool
is_full p = p.nwrite == add32 p.nread pipesize

abbrev pub is_empty : Pipe → Bool
is_empty p = p.nread == p.nwrite

-- `pi->data[pi->nwrite++ % PIPESIZE] = ch`
unfoldable pub put : ℕ → Pipe → Pipe
put ch p = record p { cells = update p.cells (p.nwrite % pipesize) ch; nwrite = add32 p.nwrite 1 }

-- `ch = pi->data[pi->nread++ % PIPESIZE]`
unfoldable pub get : Pipe → ℕ × Pipe
get p = (p.cells (p.nread % pipesize), record p { nread = add32 p.nread 1 })

-- The two channels of the pipe in page `page`.
abbrev pub nread_chan : ℕ → Chan
nread_chan page = record { kind = 2; index = page }

abbrev pub nwrite_chan : ℕ → Chan
nwrite_chan page = record { kind = 3; index = page }

-- What a pass of `pipewrite`, up to `sleep` or its end, comes to. The readers are woken by the
-- first and the last.
pub data Write : Type 0 where
  wrote : ℕ → Pipe → Write
  refused : Pipe → Write
  blocks : ℕ → Pipe → Write

-- `copyin` gives the byte at an address of the user's memory, if there is one; `dead` is the
-- caller's `killed`.
module _ (copyin : ℕ → Option ℕ) (dead : Bool) where
  -- The loop of `pipewrite` with `left` bytes left, the next one at index `i`.
  unfoldable pub pipewrite : ℕ → ℕ → ℕ → Pipe → Write
  pipewrite addr zero i p = wrote i p
  pipewrite addr (suc left) i p =
      if not p.readopen || dead
      then refused p
      else if is_full p
      then blocks i p
      else elim (copyin (addr + i)) [
        | none ↦ wrote i p
        | some ch ↦ pipewrite addr left (i + 1) (put ch p)
      ]

-- What a pass of `piperead` comes to: a count, the pipe and the rest of the kernel, after which the
-- writers are woken; -1; or that it sleeps.
pub data Read (M : Type 0) : Type 0 where
  reads : ℕ → Pipe → M → Read M
  fails : Read M
  starves : Read M

module _ {M : Type 0} (sv : Services M) (table : ℕ) where
  -- The loop that copies, with `left` bytes left, the next one at index `i`.
  unfoldable pub read_loop : ℕ → ℕ → ℕ → Pipe → M → ℕ × Pipe × M
  read_loop addr zero i p m = (i, p, m)
  read_loop addr (suc left) i p m = elim (is_empty p) [
    | true ↦ (i, p, m)
    | false ↦
        let (ch, p') = get p in
        let (copied, m') = sv.copyout table (addr + i) (ch ∷ []) m in
        elim copied [ true ↦ read_loop addr left (i + 1) p' m' | false ↦ (i, p', m') ]
  ]

  unfoldable pub piperead : Bool → ℕ → ℕ → Pipe → M → Read M
  piperead dead addr n p m =
      if is_empty p && p.writeopen
      then if dead then fails else starves
      else let (i, p', m') = read_loop addr n 0 p m in reads i p' m'

-- `pipeclose`: the pipe, whether its page is freed, and whom to wake.
unfoldable pub pipeclose : ℕ → Bool → Pipe → Pipe × Bool × Chan
pipeclose page writable p =
    let p' = if writable then record p { writeopen = false } else record p { readopen = false } in
    (
      p',
      not p'.readopen && not p'.writeopen,
      if writable then nread_chan page else nwrite_chan page,
    )
