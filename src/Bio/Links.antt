-- ===== src/Bio/Links.antt =====
-- The doubly linked ring of kernel/bio.c against a list of buffers.
use jklnkhbv.Base.{
  ℕ, ◌≡◌, ◌≢◌, sym, ap, ◌∙◌, List, [], ◌∷◌, ◌++◌, All, All-left, All-right, All-append, arith,
  subst,
}
use mathlib.Core.List.{append-nil}
use jklnkhbv.Bio.{Ring, head, set_next, set_prev, push_front, unlink}

-- From `a` on, the links lead through these buffers to `c`, and back.
abbrev pub Chain : Ring → ℕ → List ℕ → ℕ → Type 0
Chain r a [] c = (r.next a ≡ c) × (r.prev c ≡ a)
Chain r a (x ∷ xs) c = (r.next a ≡ x) × (r.prev x ≡ a) × Chain r x xs c

abbrev pub Fresh : ℕ → List ℕ → Type 0
Fresh a xs = All (λ x. a ≢ x) xs

abbrev pub Nodup : List ℕ → Type 0
Nodup [] = Unit
Nodup (x ∷ xs) = Fresh x xs × Nodup xs

-- A write of `next` at a node that is not on the chain before its end.
Chain-set_next :
    (r : Ring) (a c p q : ℕ) (xs : List ℕ)
    → p ≢ a
    → Fresh p xs
    → Chain r a xs c
    → Chain (set_next p q r) a xs c
Chain-set_next r a c p q [] ne f h = (ground (arith, ne, h.0), h.1)
Chain-set_next r a c p q (x ∷ xs) ne f h =
    (ground (arith, ne, h.0), h.1, Chain-set_next r x c p q xs f.0 f.1 h.2)

-- A write of `prev` at a node that is not on the chain behind its start.
Chain-set_prev :
    (r : Ring) (a c p q : ℕ) (xs : List ℕ)
    → p ≢ c
    → Fresh p xs
    → Chain r a xs c
    → Chain (set_prev p q r) a xs c
Chain-set_prev r a c p q [] ne f h = (h.0, ground (arith, ne, h.1))
Chain-set_prev r a c p q (x ∷ xs) ne f h =
    (h.0, ground (arith, f.0, h.1), Chain-set_prev r x c p q xs ne f.1 h.2)

Chain-split :
    (r : Ring) (a b c : ℕ) (xs ys : List ℕ)
    → Chain r a (xs ++ b ∷ ys) c
    → Chain r a xs b × Chain r b ys c
Chain-split r a b c [] ys h = ((h.0, h.1), h.2)
Chain-split r a b c (x ∷ xs) ys h =
    let (left, right) = Chain-split r x b c xs ys h.2 in ((h.0, h.1, left), right)

pub Chain-join :
    (r : Ring) (a b c : ℕ) (xs ys : List ℕ)
    → Chain r a xs b
    → Chain r b ys c
    → Chain r a (xs ++ b ∷ ys) c
Chain-join r a b c [] ys g h = (g.0, g.1, h)
Chain-join r a b c (x ∷ xs) ys g h = (g.0, g.1, Chain-join r x b c xs ys g.2 h)

-- The ring from the head around to the head.
abbrev pub IsRing : Ring → List ℕ → Type 0
IsRing r xs = Chain r head xs head × Fresh head xs × Nodup xs

-- The node before the end of a chain.
abbrev last : ℕ → List ℕ → ℕ
last a [] = a
last a (x ∷ xs) = last x xs

prev_last : (r : Ring) (a b : ℕ) (xs : List ℕ) → Chain r a xs b → r.prev b ≡ last a xs
prev_last r a b [] h = h.1
prev_last r a b (x ∷ xs) h = prev_last r x b xs h.2

Fresh-last : (p a : ℕ) (xs : List ℕ) → p ≢ a → Fresh p xs → p ≢ last a xs
Fresh-last p a [] ne f = ne
Fresh-last p a (x ∷ xs) ne f = Fresh-last p x xs f.0 f.1

-- The chain to `b` is bent to end at `z`.
bend :
    (r : Ring) (a b z : ℕ) (xs : List ℕ)
    → Fresh a xs
    → Nodup xs
    → Fresh z xs
    → Chain r a xs b
    → Chain (set_next (last a xs) z (set_prev z (last a xs) r)) a xs z
bend r a b z [] fa nd fz h = (ground arith, ground arith)
bend r a b z (x ∷ xs) fa nd fz h =
    let ne = Fresh-last a x xs fa.0 fa.1 in
    (ground (arith, ne, h.0), ground (arith, fz.0, h.1), bend r x b z xs nd.0 nd.1 fz.1 h.2)

Fresh-left : (p : ℕ) (xs ys : List ℕ) → Fresh p (xs ++ ys) → Fresh p xs
Fresh-left p = All-left (λ x. p ≢ x)

Fresh-right : (p : ℕ) (xs ys : List ℕ) → Fresh p (xs ++ ys) → Fresh p ys
Fresh-right p = All-right (λ x. p ≢ x)

pub Fresh-append : (p : ℕ) (xs ys : List ℕ) → Fresh p xs → Fresh p ys → Fresh p (xs ++ ys)
Fresh-append p = All-append (λ x. p ≢ x)

pub Nodup-left : (xs ys : List ℕ) → Nodup (xs ++ ys) → Nodup xs
Nodup-left [] ys n = tt
Nodup-left (x ∷ xs) ys n = (Fresh-left x xs ys n.0, Nodup-left xs ys n.1)

pub Nodup-right : (xs ys : List ℕ) → Nodup (xs ++ ys) → Nodup ys
Nodup-right [] ys n = n
Nodup-right (x ∷ xs) ys n = Nodup-right xs ys n.1

-- Without the middle one.
Nodup-without : (b : ℕ) (xs ys : List ℕ) → Nodup (xs ++ b ∷ ys) → Nodup (xs ++ ys)
Nodup-without b [] ys n = n.1
Nodup-without b (x ∷ xs) ys n = (
  Fresh-append x xs ys (Fresh-left x xs (b ∷ ys) n.0) (Fresh-right x xs (b ∷ ys) n.0).1,
  Nodup-without b xs ys n.1,
)

-- A node behind a list is not in it.
pub Fresh-before : (b : ℕ) (xs ys : List ℕ) → Nodup (xs ++ b ∷ ys) → Fresh b xs
Fresh-before b [] ys n = tt
Fresh-before b (x ∷ xs) ys n =
    let ne = (Fresh-right x xs (b ∷ ys) n.0).0 in (λ e. ne (sym e), Fresh-before b xs ys n.1)

last_apart : (a : ℕ) (xs zs : List ℕ) → Fresh a zs → Nodup (xs ++ zs) → Fresh (last a xs) zs
last_apart a [] zs f n = f
last_apart a (x ∷ xs) zs f n = last_apart x xs zs (Fresh-right x xs zs n.0) n.1

unlink_bend :
    (r : Ring) (b z l : ℕ)
    → r.next b ≡ z
    → r.prev b ≡ l
    → b ≢ z
    → unlink b r ≡ set_next l z (set_prev z l r)
unfolding unlink
unlink_bend r b z l n p ne =
    let e : set_prev (r.next b) (r.prev b) r ≡ set_prev z l r = λ i. set_prev (n i) (p i) r in
    let l' : (set_prev z l r).prev b ≡ l = ground (arith, p, ne) in
    ap (λ (r1 : Ring). set_next (r1.prev b) (r1.next b) r1) e
    ∙ (λ i. set_next (l' i) (n i) (set_prev z l r))

-- Taking a buffer out of the ring.
pub unlink_lem :
    (r : Ring) (b : ℕ) (xs ys : List ℕ) → IsRing r (xs ++ b ∷ ys) → IsRing (unlink b r) (xs ++ ys)
unlink_lem r b xs [] (ch, f, n) =
    let (left, right) = Chain-split r head b head xs [] ch in
    let fh = Fresh-left head xs (b ∷ []) f in
    let nd = Nodup-left xs (b ∷ []) n in
    let nb : b ≢ head = λ e. (Fresh-right head xs (b ∷ []) f).0 (sym e) in
    let e = unlink_bend r b head (last head xs) right.0 (prev_last r head b xs left) nb in
    let done : IsRing (set_next (last head xs) head (set_prev head (last head xs) r)) xs =
      (bend r head b head xs fh nd fh left, fh, nd) in
    subst (IsRing (unlink b r)) (sym (append-nil xs)) (subst (λ s. IsRing s xs) (sym e) done)
unlink_lem r b xs (y ∷ ys) (ch, f, n) =
    let (left, right) = Chain-split r head b head xs (y ∷ ys) ch in
    let fh = Fresh-left head xs (b ∷ y ∷ ys) f in
    let fr = Fresh-right head xs (b ∷ y ∷ ys) f in
    let nd = Nodup-left xs (b ∷ y ∷ ys) n in
    let nr = Nodup-right xs (b ∷ y ∷ ys) n in
    let n' = Nodup-without b xs (y ∷ ys) n in
    let l = last head xs in
    let fl = last_apart head xs (b ∷ y ∷ ys) fr n in
    let ny : y ≢ head = λ e. fr.1.0 (sym e) in
    let e = unlink_bend r b y l right.0 (prev_last r head b xs left) nr.0.0 in
    let first = bend r head b y xs fh nd (Fresh-before y xs ys n') left in
    let rest =
      Chain-set_next (set_prev y l r) y head l y ys fl.1.0 fl.1.1
        (Chain-set_prev r y head y l ys ny nr.1.0 right.2) in
    subst (λ s. IsRing s (xs ++ y ∷ ys)) (sym e)
      (Chain-join _ head y head xs ys first rest, Fresh-append head xs (y ∷ ys) fh fr.1, n')

-- Putting a buffer at the front of the ring.
pub push_front_lem :
    (r : Ring) (b : ℕ) (xs : List ℕ)
    → IsRing r xs
    → b ≢ head
    → Fresh b xs
    → IsRing (push_front b r) (b ∷ xs)
unfolding push_front
push_front_lem r b [] (ch, f, n) nb fb = (
  (
    ground (arith, nb),
    ground (arith, nb, ch.0),
    (ground (arith, nb, ch.0), ground (arith, nb, ch.0)),
  ),
  ((λ e. nb (sym e)), tt),
  (tt, tt),
)
push_front_lem r b (x ∷ xs) (ch, f, n) nb fb =
    let r1 : Ring = set_prev b head (set_next b (r.next head) r) in
    let first : r1.next head ≡ x = ground (arith, nb, ch.0) in
    let r' : Ring = set_next head b (set_prev x b r1) in
    let nx : x ≢ head = λ e. f.0 (sym e) in
    let rest = Chain-set_next (set_prev x b r1) x head head b xs f.0 f.1 (
      Chain-set_prev r1 x head x b xs nx n.0 (
        Chain-set_prev (set_next b (r.next head) r) x head b head xs nb fb.1
          (Chain-set_next r x head b (r.next head) xs fb.0 fb.1 ch.2))) in
    subst (λ s. IsRing s (b ∷ x ∷ xs)) (ap (λ z. set_next head b (set_prev z b r1)) (sym first))
      (
        (ground arith, ground (arith, fb.0), (ground (arith, nb, ch.0), ground arith, rest)),
        ((λ e. nb (sym e)), f),
        (fb, n),
      )
