-- ===== src/Strings/Compare.antt =====
-- `strncmp`, `memcmp` and `strlen` of kernel/string.c, against lists of bytes.
use jklnkhbv.Base.{
  ℕ, zero, suc, ◌+◌, ◌<◌, ◌≡◌, ◌≢◌, refl, sym, ap, ◌∙◌, some, List, [], ◌∷◌, ◌==◌, if◌then◌else◌,
  arith, ℤ, pos,
}
use jklnkhbv.Strings.{Bytes, diff, memcmp, strncmp, strlen, strlen_from}

-- The bytes of the string at `p`, at most `n` of them.
unfoldable pub chars : Bytes → ℕ → ℕ → List ℕ
chars mem p zero = []
chars mem p (suc n) = let rest = chars mem (p + 1) n in if mem p == 0 then [] else mem p ∷ rest

-- All `n` bytes from `p` on.
pub bytes : Bytes → ℕ → ℕ → List ℕ
bytes mem p zero = []
bytes mem p (suc n) = mem p ∷ bytes mem (p + 1) n

-- The order of lists of bytes, as the difference at the first place where they differ; a list that
-- has ended counts as 0 there.
pub order : List ℕ → List ℕ → ℤ
order [] [] = pos 0
order [] (b ∷ bs) = diff 0 b
order (a ∷ xs) [] = diff a 0
order (a ∷ xs) (b ∷ bs) = let rest = order xs bs in if a == b then rest else diff a b

-- `strncmp` is the order of the two strings, cut off at `n` bytes.
pub strncmp_lem :
    (mem : Bytes) (p q n : ℕ) → strncmp mem p q n ≡ order (chars mem p n) (chars mem q n)
unfolding strncmp chars order
strncmp_lem mem p q zero = refl
strncmp_lem mem p q (suc n) = ground (arith, strncmp_lem mem (p + 1) (q + 1) n)

-- `memcmp` is the order of the `n` bytes at each address.
pub memcmp_lem :
    (mem : Bytes) (p q n : ℕ) → memcmp mem p q n ≡ order (bytes mem p n) (bytes mem q n)
unfolding memcmp bytes order
memcmp_lem mem p q zero = refl
memcmp_lem mem p q (suc n) = ground (arith, memcmp_lem mem (p + 1) (q + 1) n)

plus_zero : (n : ℕ) → n ≡ n + 0
plus_zero n = omega arith

plus_suc : (n i : ℕ) → n + 1 + i ≡ n + suc i
plus_suc n i = omega arith

strlen_from_lem :
    (len fuel n : ℕ) (mem : Bytes) (s : ℕ)
    → len < fuel
    → mem (s + (n + len)) ≡ 0
    → ((j : ℕ) → j < len → mem (s + (n + j)) ≢ 0)
    → strlen_from fuel mem s n ≡ some (n + len)
unfolding strlen_from
strlen_from_lem len zero n mem s lt e ne = absurd (omega arith)
strlen_from_lem zero (suc fuel) n mem s lt e ne =
    ground (arith, ap (λ i. mem (s + i)) (plus_zero n), e)
strlen_from_lem (suc len) (suc fuel) n mem s lt e ne =
    let here : mem (s + n) ≢ 0 =
      λ z. ne 0 (omega arith) (ap (λ i. mem (s + i)) (omega arith) ∙ z) in
    let moved = λ (i : ℕ). ap (λ a. mem (s + a)) (plus_suc n i) in
    let ih =
      strlen_from_lem len fuel (n + 1) mem s (omega arith) (moved len ∙ e)
        (λ j h z. ne (suc j) (omega arith) (sym (moved j) ∙ z)) in
    ground (arith, here, ih)

-- With fuel for it, `strlen` is the number of bytes before the first zero.
pub strlen_lem :
    (len fuel : ℕ) (mem : Bytes) (s : ℕ)
    → len < fuel
    → mem (s + len) ≡ 0
    → ((j : ℕ) → j < len → mem (s + j) ≢ 0)
    → strlen fuel mem s ≡ some len
unfolding strlen
strlen_lem len fuel mem s lt e ne =
    strlen_from_lem len fuel 0 mem s lt (ap (λ i. mem (s + i)) (omega arith) ∙ e)
      (λ j h z. ne j h (ap (λ i. mem (s + i)) (omega arith) ∙ z))
    ∙ ap some (omega arith)
