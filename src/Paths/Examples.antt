-- ===== src/Paths/Examples.antt =====
-- Tests of `skipelem` at the examples in its comment, and a concrete path for its theorem.
use jklnkhbv.Base.{ℕ, ◌≡◌, refl, none, some, List, [], ◌∷◌, ◌++◌, map, take, arith}
use jklnkhbv.Paths.{slash, dirsiz, skip_slashes, pass_name, take_name, skipelem, names}
use jklnkhbv.Paths.Names.{slashes, render, names_lem}

abbrev a : ℕ
a = 97

abbrev b : ℕ
b = 98

abbrev bb : List ℕ
bb = b ∷ b ∷ []

skipelem_relative :
    skipelem (a ∷ slash ∷ b ∷ b ∷ slash ∷ a ∷ []) ≡ some (b ∷ b ∷ slash ∷ a ∷ [], a ∷ [])
unfolding skipelem take_name pass_name skip_slashes
skipelem_relative = refl

skipelem_slashes :
    skipelem (slash ∷ slash ∷ slash ∷ a ∷ slash ∷ slash ∷ b ∷ b ∷ []) ≡ some (bb, a ∷ [])
unfolding skipelem take_name pass_name skip_slashes
skipelem_slashes = refl

skipelem_last : skipelem (a ∷ []) ≡ some ([], a ∷ [])
unfolding skipelem take_name pass_name skip_slashes
skipelem_last = refl

skipelem_end : skipelem (slash ∷ slash ∷ slash ∷ slash ∷ []) ≡ none
unfolding skipelem take_name pass_name skip_slashes
skipelem_end = refl

names_lem_example :
    names 3 (slashes 2 ++ render ((a ∷ [], 1) ∷ (bb, 0) ∷ []))
    ≡ some (map (λ (f : List ℕ × ℕ). take dirsiz f.0) ((a ∷ [], 1) ∷ (bb, 0) ∷ []))
names_lem_example = names_lem 3 2 ((a ∷ [], 1) ∷ (bb, 0) ∷ []) (omega arith) (omega arith)
