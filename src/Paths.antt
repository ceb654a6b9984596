-- ===== src/Paths.antt =====
-- Path names, of kernel/fs.c.
pub mod Names
mod Examples
use jklnkhbv.Base.{
  ℕ, zero, suc, Option, none, some, List, [], ◌∷◌, ◌==◌, if◌then◌else◌, take, ◌>>=◌,
}

abbrev pub slash : ℕ
slash = 47

abbrev pub dirsiz : ℕ
dirsiz = 14

-- A C string is the list of its bytes up to the 0, and the pointer steps from a list to its tail.
-- `while(*path == '/') path++;`
unfoldable pub skip_slashes : List ℕ → List ℕ
skip_slashes [] = []
skip_slashes (c ∷ path) = let rest = skip_slashes path in if c == slash then rest else c ∷ path

-- `while(*path != '/' && *path != 0) path++;`: the bytes passed, and the rest.
unfoldable pub pass_name : List ℕ → List ℕ × List ℕ
pass_name [] = ([], [])
pass_name (c ∷ path) =
    let r = pass_name path in if c == slash then ([], c ∷ path) else (c ∷ r.0, r.1)

-- `skipelem` from its first test on.
unfoldable pub take_name : List ℕ → Option (List ℕ × List ℕ)
take_name [] = none
take_name (c ∷ path) = let r = pass_name (c ∷ path) in some (skip_slashes r.1, take dirsiz r.0)

-- The path returned, and what stands in `name`: all of its bytes, or those up to the 0.
unfoldable pub skipelem : List ℕ → Option (List ℕ × List ℕ)
skipelem path = take_name (skip_slashes path)

-- A round of the loop of `namex` over the names, with what `skipelem` returns.
unfoldable pub collect :
    (List ℕ → Option (List (List ℕ))) → Option (List ℕ × List ℕ) → Option (List (List ℕ))
collect others none = some []
collect others (some (rest, name)) = others rest >>= λ es. some (name ∷ es)

-- The names that the loop gets in turn, on fuel. `none` says that it has run out.
unfoldable pub names : ℕ → List ℕ → Option (List (List ℕ))
names zero path = none
names (suc fuel) path = collect (names fuel) (skipelem path)
