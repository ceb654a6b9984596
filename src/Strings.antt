-- ===== src/Strings.antt =====
-- The functions of kernel/string.c, on memory as bytes.
pub mod Move
pub mod Compare
pub mod Copy
mod Examples
use jklnkhbv.Base.{
  ℕ, zero, suc, ◌+◌, ◌-◌, Bool, true, false, not, Option, none, some, update, ◌==◌, ltb, ◌&&◌,
  if◌then◌else◌, ℤ, pos, negsuc,
}

abbrev pub Bytes : Type 0
Bytes = ℕ → ℕ

unfoldable pub memset : ℕ → ℕ → ℕ → Bytes → Bytes
memset dst c zero mem = mem
memset dst c (suc n) mem = memset (dst + 1) c n (update mem dst c)

-- The difference of two bytes, as an int.
abbrev pub diff : ℕ → ℕ → ℤ
diff a b = if ltb a b then negsuc (b - a - 1) else pos (a - b)

unfoldable pub memcmp : Bytes → ℕ → ℕ → ℕ → ℤ
memcmp mem s1 s2 zero = pos 0
memcmp mem s1 s2 (suc n) =
    let rest = memcmp mem (s1 + 1) (s2 + 1) n in
    if mem s1 == mem s2 then rest else diff (mem s1) (mem s2)

-- `while(n-- > 0) *--d = *--s;`
unfoldable pub move_down : ℕ → ℕ → ℕ → Bytes → Bytes
move_down d s zero mem = mem
move_down d s (suc n) mem = move_down (d - 1) (s - 1) n (update mem (d - 1) (mem (s - 1)))

-- `while(n-- > 0) *d++ = *s++;`
unfoldable pub move_up : ℕ → ℕ → ℕ → Bytes → Bytes
move_up d s zero mem = mem
move_up d s (suc n) mem = move_up (d + 1) (s + 1) n (update mem d (mem s))

unfoldable pub memmove : ℕ → ℕ → ℕ → Bytes → Bytes
memmove dst src n mem =
    if n == 0
    then mem
    else if ltb src dst && ltb dst (src + n)
    then move_down (dst + n) (src + n) n mem
    else move_up dst src n mem

unfoldable pub strncmp : Bytes → ℕ → ℕ → ℕ → ℤ
strncmp mem p q zero = pos 0
strncmp mem p q (suc n) =
    let rest = strncmp mem (p + 1) (q + 1) n in
    if not (mem p == 0) && mem p == mem q then rest else diff (mem p) (mem q)

-- The second loop of `strncpy`.
unfoldable pub pad : ℕ → ℕ → Bytes → Bytes
pad s zero mem = mem
pad s (suc n) mem = pad (s + 1) n (update mem s 0)

-- Its first loop, and the second.
unfoldable pub strncpy : ℕ → ℕ → ℕ → Bytes → Bytes
strncpy s t zero mem = mem
strncpy s t (suc n) mem =
    let mem' = update mem s (mem t) in
    let rest = strncpy (s + 1) (t + 1) n mem' in if mem t == 0 then pad (s + 1) n mem' else rest

-- The loop of `safestrcpy`, and the zero behind it: at most `n` bytes and the zero.
unfoldable pub copy_string : ℕ → ℕ → ℕ → Bytes → Bytes
copy_string s t zero mem = update mem s 0
copy_string s t (suc n) mem =
    let mem' = update mem s (mem t) in
    let rest = copy_string (s + 1) (t + 1) n mem' in
    if mem t == 0 then update mem' (s + 1) 0 else rest

unfoldable pub safestrcpy : ℕ → ℕ → ℕ → Bytes → Bytes
safestrcpy s t zero mem = mem
safestrcpy s t (suc n) mem = copy_string s t n mem

-- On fuel; `none` says that it has run out.
unfoldable pub strlen_from : ℕ → Bytes → ℕ → ℕ → Option ℕ
strlen_from zero mem s n = none
strlen_from (suc fuel) mem s n =
    let rest = strlen_from fuel mem s (n + 1) in if mem (s + n) == 0 then some n else rest

unfoldable pub strlen : ℕ → Bytes → ℕ → Option ℕ
strlen fuel mem s = strlen_from fuel mem s 0
