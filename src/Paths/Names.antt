-- ===== src/Paths/Names.antt =====
-- `skipelem` of kernel/fs.c takes a path apart into the names it was put together from.
use jklnkhbv.Base.{
  ℕ, zero, suc, ◌<◌, ◌≡◌, ◌≢◌, refl, ap, ◌∙◌, none, some, List, [], ◌∷◌, ◌++◌, map, take, length,
  All, arith,
}
use mathlib.Core.List.{append-nil}
use jklnkhbv.Paths.{slash, dirsiz, skip_slashes, pass_name, take_name, skipelem, names, collect}

abbrev pub slashes : ℕ → List ℕ
slashes zero = []
slashes (suc n) = slash ∷ slashes n

-- A name is not empty and has no slash.
abbrev pub IsName : List ℕ → Type 0
IsName e = (0 < length e) × All (λ c. c ≢ slash) e

-- Each name, with the number of slashes behind it; between two names there is one more.
abbrev pub render : List (List ℕ × ℕ) → List ℕ
render [] = []
render ((e, k) ∷ []) = e ++ slashes k
render ((e, k) ∷ f ∷ es) = e ++ (slashes (suc k) ++ render (f ∷ es))

abbrev pub StartsClear : List ℕ → Type 0
StartsClear [] = Unit
StartsClear (c ∷ path) = c ≢ slash

abbrev pub EndsName : List ℕ → Type 0
EndsName [] = Unit
EndsName (c ∷ path) = c ≡ slash

skip_clear : (path : List ℕ) → StartsClear path → skip_slashes path ≡ path
unfolding skip_slashes
skip_clear [] h = refl
skip_clear (c ∷ path) h = ground (arith, h)

skip-slashes : (k : ℕ) (path : List ℕ) → StartsClear path → skip_slashes (slashes k ++ path) ≡ path
unfolding skip_slashes
skip-slashes zero path h = skip_clear path h
skip-slashes (suc k) path h = skip-slashes k path h

pass_end : (rest : List ℕ) → EndsName rest → pass_name rest ≡ ([], rest)
unfolding pass_name
pass_end [] h = refl
pass_end (c ∷ rest) h = ground (arith, h)

pass-name :
    (e rest : List ℕ) → All (λ c. c ≢ slash) e → EndsName rest → pass_name (e ++ rest) ≡ (e, rest)
unfolding pass_name
pass-name [] rest h t = pass_end rest t
pass-name (c ∷ e) rest h t = ground (arith, h.0, pass-name e rest h.1 t)

take_name_lem :
    (e rest : List ℕ)
    → IsName e
    → EndsName rest
    → take_name (e ++ rest) ≡ some (skip_slashes rest, take dirsiz e)
unfolding take_name
take_name_lem [] rest h t = absurd (omega (arith, h.0))
take_name_lem (c ∷ e) rest h t =
    ap (λ (r : List ℕ × List ℕ). some (skip_slashes r.1, take dirsiz r.0))
      (pass-name (c ∷ e) rest h.1 t)

StartsClear-name : (e rest : List ℕ) → IsName e → StartsClear (e ++ rest)
StartsClear-name [] rest h = absurd (omega (arith, h.0))
StartsClear-name (c ∷ e) rest h = h.1.0

skipelem_name :
    (k : ℕ) (e rest : List ℕ)
    → IsName e
    → EndsName rest
    → skipelem (slashes k ++ (e ++ rest)) ≡ some (skip_slashes rest, take dirsiz e)
unfolding skipelem
skipelem_name k e rest h t =
    ap take_name (skip-slashes k (e ++ rest) (StartsClear-name e rest h)) ∙ take_name_lem e rest h t

EndsName-slashes : (k : ℕ) → EndsName (slashes k)
EndsName-slashes zero = tt
EndsName-slashes (suc k) = refl

skip_all : (k : ℕ) → skip_slashes (slashes k) ≡ []
unfolding skip_slashes
skip_all zero = refl
skip_all (suc k) = skip_all k

StartsClear-render :
    (es : List (List ℕ × ℕ)) → All (λ (f : List ℕ × ℕ). IsName f.0) es → StartsClear (render es)
StartsClear-render [] h = tt
StartsClear-render ((e, k) ∷ []) h = StartsClear-name e (slashes k) h.0
StartsClear-render ((e, k) ∷ f ∷ es) h = StartsClear-name e (slashes (suc k) ++ render (f ∷ es)) h.0

skipelem-slashes : (k : ℕ) → skipelem (slashes k) ≡ none
unfolding skipelem take_name
skipelem-slashes k = ap take_name (skip_all k)

-- A step of the loop.
names_step :
    (n : ℕ) (path rest name : List ℕ) (others : List (List ℕ))
    → skipelem path ≡ some (rest, name)
    → names n rest ≡ some others
    → names (suc n) path ≡ some (name ∷ others)
unfolding names collect
names_step n path rest name others e h = rw (e, h) refl

names_stop : (n : ℕ) (path : List ℕ) → skipelem path ≡ none → names (suc n) path ≡ some []
unfolding names collect
names_stop n path e = rw e refl

-- A path is put together from names that are not empty and hold no slash, with any number of
-- slashes in front and behind and one or more between two of them. The loop over `skipelem` gets
-- these names in their order, each cut off at 14 bytes, and ends, when it may run once more than
-- there are names.
pub names_lem :
    (fuel k : ℕ) (es : List (List ℕ × ℕ))
    → length es < fuel
    → All (λ (f : List ℕ × ℕ). IsName f.0) es
    → names fuel (slashes k ++ render es) ≡ some (map (λ (f : List ℕ × ℕ). take dirsiz f.0) es)
names_lem zero k es lt h = absurd (omega (arith, lt))
names_lem (suc n) k [] lt h =
    ap (names (suc n)) (append-nil (slashes k)) ∙ names_stop n (slashes k) (skipelem-slashes k)
names_lem (suc n) k ((e, j) ∷ []) lt h =
    names_step n (slashes k ++ (e ++ slashes j)) [] (take dirsiz e) []
      (skipelem_name k e (slashes j) h.0 (EndsName-slashes j)
        ∙ ap (λ r. some (r, take dirsiz e)) (skip_all j))
      (names_lem n 0 [] (omega (arith, lt)) tt)
names_lem (suc n) k ((e, j) ∷ f ∷ es) lt h =
    names_step n (slashes k ++ (e ++ (slashes (suc j) ++ render (f ∷ es)))) (render (f ∷ es))
      (take dirsiz e) (map (λ (f : List ℕ × ℕ). take dirsiz f.0) (f ∷ es))
      (skipelem_name k e (slashes (suc j) ++ render (f ∷ es)) h.0 refl
        ∙ ap (λ r. some (r, take dirsiz e))
            (skip-slashes (suc j) (render (f ∷ es)) (StartsClear-render (f ∷ es) h.1)))
      (names_lem n 0 (f ∷ es) (omega (arith, lt)) h.1)
