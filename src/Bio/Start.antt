-- ===== src/Bio/Start.antt =====
-- `binit` of kernel/bio.c.
use jklnkhbv.Base.{
  ℕ, zero, suc, ◌+◌, ◌<◌, ◌≡◌, refl, ap, List, [], ◌∷◌, update, update_self, All, All-map, arith,
  subst, length, Bool-cases, ◌==◌, inl, inr,
}
use jklnkhbv.Bio.{Ring, head, nbuf, init_loop, push_front, binit}
use jklnkhbv.Bio.Links.{IsRing, push_front_lem}
use jklnkhbv.Bio.Cache.{Has, IsCache}

-- The buffers from `b` on, put in front one after the other.
unfoldable pub inited : ℕ → ℕ → List ℕ → List ℕ
inited zero b xs = xs
inited (suc n) b xs = inited n (b + 1) (b ∷ xs)

length-inited : (n b : ℕ) (xs : List ℕ) → length (inited n b xs) ≡ n + length xs
unfolding inited
length-inited zero b xs = omega arith
length-inited (suc n) b xs = omega (arith, length-inited n (b + 1) (b ∷ xs))

-- What the loop keeps, up to buffer `b`.
record Upto (b : ℕ) (xs : List ℕ) (r : Ring) : Type 0 where
  ring : IsRing r xs
  below : All (λ x. x < b) xs
  covers : (t : ℕ) → t < b → Has t xs

covers_more :
    (b : ℕ) (xs : List ℕ) → ((t : ℕ) → t < b → Has t xs) → (t : ℕ) → t < b + 1 → Has t (b ∷ xs)
covers_more b xs h t lt = elim (Bool-cases (t == b)) [
  | inl same_one ↦ let e : b ≡ t = ground (arith, same_one) in ([], xs, ap (λ u. u ∷ xs) e)
  | inr other ↦
      let less : t < b = ground (arith, other) in
      let (ys, zs, e) = h t less in (b ∷ ys, zs, ap (λ l. b ∷ l) e)
]

init_loop-Upto :
    (n b : ℕ) (xs : List ℕ) (r : Ring)
    → b + n ≡ nbuf
    → Upto b xs r
    → Upto nbuf (inited n b xs) (init_loop n b r)
unfolding init_loop inited
init_loop-Upto zero b xs r e v = subst (λ k. Upto k xs r) (omega arith) v
init_loop-Upto (suc n) b xs r e v =
    init_loop-Upto n (b + 1) (b ∷ xs) (push_front b r) (omega arith) (record {
      ring = push_front_lem r b xs v.ring (omega arith) (All-map (λ x lt. omega arith) xs v.below);
      below = (omega arith, All-map (λ x lt. omega arith) xs v.below);
      covers = covers_more b xs v.covers;
    })

-- `binit` links all thirty buffers, each one once.
pub binit_lem : {B : Type 0} (content : B) → IsCache (binit content) (inited nbuf 0 [])
unfolding binit
binit_lem content =
    let r : Ring = record { next = update (λ p. 0) head head; prev = update (λ p. 0) head head } in
    let v = init_loop-Upto nbuf 0 [] r refl (record {
      ring = (
        (update_self (λ p. 0) head head head refl, update_self (λ p. 0) head head head refl),
        tt,
        tt,
      );
      below = tt;
      covers = λ t lt. absurd (omega arith);
    }) in
    record {
      ring = v.ring;
      few = omega (arith, length-inited nbuf 0 []);
      buffers = v.below;
      covers = v.covers;
      unique = λ s t hs ht nz. absurd (nz refl);
    }
