-- ===== src/Strings/Copy.antt =====
-- `safestrcpy` and `strncpy` of kernel/string.c.
use jklnkhbv.Base.{ℕ, zero, suc, ◌+◌, ◌-◌, ◌≤◌, ◌<◌, ◌≡◌, ◌⊎◌, refl, sym, ap, ◌∙◌, update, arith}
use jklnkhbv.Strings.{Bytes, pad, strncpy, copy_string, safestrcpy}
use jklnkhbv.Strings.Compare.{chars}

-- An address outside the `n` bytes from `s` on.
abbrev pub Outside : ℕ → ℕ → ℕ → Type 0
Outside s n a = (a < s) ⊎ (s + n ≤ a)

chars_same :
    (f g : Bytes) (p n : ℕ) → ((a : ℕ) → p ≤ a → a < p + n → f a ≡ g a) → chars f p n ≡ chars g p n
unfolding chars
chars_same f g p zero h = refl
chars_same f g p (suc n) h = ground (
  arith,
  h p (omega arith) (omega arith),
  chars_same f g (p + 1) n (λ a lo hi. h a (omega arith) (omega arith)),
)

-- A write before the string does not change it.
chars-update :
    (mem : Bytes) (s v p n : ℕ) → Outside p n s → chars (update mem s v) p n ≡ chars mem p n
chars-update mem s v p n o = chars_same (update mem s v) mem p n (λ a lo hi. ground (arith, o))

pad-Outside : (s n : ℕ) (mem : Bytes) (a : ℕ) → Outside s n a → pad s n mem a ≡ mem a
unfolding pad
pad-Outside s zero mem a o = refl
pad-Outside s (suc n) mem a o =
    pad-Outside (s + 1) n (update mem s 0) a (ground (arith, o)) ∙ ground (arith, o)

strncpy-Outside : (s t n : ℕ) (mem : Bytes) (a : ℕ) → Outside s n a → strncpy s t n mem a ≡ mem a
unfolding strncpy
strncpy-Outside s t zero mem a o = refl
strncpy-Outside s t (suc n) mem a o =
    let o' : Outside (s + 1) n a = ground (arith, o) in
    let mem' : Bytes = update mem s (mem t) in
    ground (arith, o, pad-Outside (s + 1) n mem' a o', strncpy-Outside (s + 1) (t + 1) n mem' a o')

copy-Outside :
    (s t n : ℕ) (mem : Bytes) (a : ℕ) → Outside s (suc n) a → copy_string s t n mem a ≡ mem a
unfolding copy_string
copy-Outside s t zero mem a o = ground (arith, o)
copy-Outside s t (suc n) mem a o =
    let o' : Outside (s + 1) (suc n) a = ground (arith, o) in
    ground (arith, o, copy-Outside (s + 1) (t + 1) n (update mem s (mem t)) a o')

-- The two ranges do not meet.
abbrev pub Apart : ℕ → ℕ → ℕ → ℕ → Type 0
Apart s n t m = (s + n ≤ t) ⊎ (t + m ≤ s)

copy_chars :
    (s t n : ℕ) (mem : Bytes)
    → Apart s (suc n) t n
    → chars (copy_string s t n mem) s (suc n) ≡ chars mem t n
unfolding copy_string chars
copy_chars s t zero mem o = ground arith
copy_chars s t (suc n) mem o =
    let mem' : Bytes = update mem s (mem t) in
    let rest = copy_string (s + 1) (t + 1) n mem' in
    let head : rest s ≡ mem t =
      copy-Outside (s + 1) (t + 1) n mem' s (omega arith) ∙ ground arith in
    let tail =
      copy_chars (s + 1) (t + 1) n mem' (ground (arith, o))
      ∙ chars-update mem s (mem t) (t + 1) n (ground (arith, o)) in
    ground (arith, head, tail)

-- `safestrcpy` from a string that does not overlap leaves the string's first `n - 1` bytes, or all
-- up to its end, as a string of at most `n - 1` bytes at `s`, and changes nothing outside the `n`
-- bytes there.
pub safestrcpy_lem :
    (s t n : ℕ) (mem : Bytes)
    → Apart s n t (n - 1)
    → 0 < n
    → (chars (safestrcpy s t n mem) s n ≡ chars mem t (n - 1))
      × ((a : ℕ) → Outside s n a → safestrcpy s t n mem a ≡ mem a)
unfolding safestrcpy
safestrcpy_lem s t zero mem o lt = absurd (omega arith)
safestrcpy_lem s t (suc n) mem o lt =
    let less : suc n - 1 ≡ n = omega arith in
    (
      copy_chars s t n mem (ground (arith, o)) ∙ ap (chars mem t) (sym less),
      λ a out. copy-Outside s t n mem a out,
    )

chars-strncpy :
    (s t n : ℕ) (mem : Bytes) → Apart s n t n → chars (strncpy s t n mem) s n ≡ chars mem t n
unfolding strncpy chars
chars-strncpy s t zero mem o = refl
chars-strncpy s t (suc n) mem o =
    let mem' : Bytes = update mem s (mem t) in
    let padded : pad (s + 1) n mem' s ≡ mem t =
      pad-Outside (s + 1) n mem' s (omega arith) ∙ ground arith in
    let head : strncpy (s + 1) (t + 1) n mem' s ≡ mem t =
      strncpy-Outside (s + 1) (t + 1) n mem' s (omega arith) ∙ ground arith in
    let tail =
      chars-strncpy (s + 1) (t + 1) n mem' (ground (arith, o))
      ∙ chars-update mem s (mem t) (t + 1) n (ground (arith, o)) in
    ground (arith, padded, head, tail)

-- `strncpy` from a string that does not overlap leaves the string, cut off at `n` bytes, at `s`,
-- and changes nothing outside the `n` bytes there.
pub strncpy_lem :
    (s t n : ℕ) (mem : Bytes)
    → Apart s n t n
    → (chars (strncpy s t n mem) s n ≡ chars mem t n)
      × ((a : ℕ) → Outside s n a → strncpy s t n mem a ≡ mem a)
strncpy_lem s t n mem o = (chars-strncpy s t n mem o, λ a out. strncpy-Outside s t n mem a out)
