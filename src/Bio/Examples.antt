-- ===== src/Bio/Examples.antt =====
-- The theorems about kernel/bio.c at the cache after `binit`, and at one whose first buffer is held.
use jklnkhbv.Base.{
  ℕ, ◌+◌, ◌≡◌, ◌≢◌, ◌⊎◌, refl, true, false, none, some, [], ◌∷◌, ◌==◌, if◌then◌else◌, arith, subst,
}
use jklnkhbv.Locks.{holdingsleep, releasesleep}
use jklnkhbv.Bio.{Buf, Bcache, nbuf, binit, bget, brelse, set_buf}
use jklnkhbv.Bio.Cache.{IsCache, GetOutcome, bget_lem, brelse_lem, kept-IsCache}
use jklnkhbv.Bio.Start.{inited, binit_lem}

abbrev blank : ℕ
blank = 0

first_cache : IsCache (binit blank) (inited nbuf 0 [])
first_cache = binit_lem blank

abbrev rootdev : ℕ
rootdev = 1

nonzero : rootdev ≢ 0
nonzero e = absurd (omega arith)

bget_lem_example :
    GetOutcome
      (binit blank)
      (inited nbuf 0 [])
      rootdev
      33
      first_cache
      nonzero
      (bget rootdev 33 (binit blank))
bget_lem_example = bget_lem (binit blank) (inited nbuf 0 []) rootdev 33 first_cache nonzero

-- Process 3 holds buffer 29.
abbrev held : Buf ℕ
held = record {
  valid = true;
  dev = 0;
  blockno = 0;
  lock = record { locked = true; pid = 3 };
  refcnt = 1;
  content = 5;
}

abbrev held_cache : Bcache ℕ
held_cache = set_buf 29 held (binit blank)

all_others : inited nbuf 0 [] ≡ 29 ∷ inited 29 0 []
unfolding inited
all_others = refl

held_cache-IsCache : IsCache held_cache (29 ∷ inited 29 0 [])
unfolding binit
held_cache-IsCache =
    subst (IsCache held_cache) all_others
      (kept-IsCache (binit blank) (inited nbuf 0 []) 29 held first_cache refl refl)

brelse_lem_example :
    ((holdingsleep 3 (held_cache.buf 29).lock ≡ false) × (brelse 3 29 held_cache ≡ none))
    ⊎ ((c' : Bcache ℕ) × (brelse 3 29 held_cache ≡ some c')
        × ((t : ℕ) → t ≢ 29 → c'.buf t ≡ held_cache.buf t)
        × ((c'.buf 29).refcnt + 1 ≡ (held_cache.buf 29).refcnt)
        × ((c'.buf 29).lock ≡ releasesleep (held_cache.buf 29).lock)
        × IsCache c'
            (if (held_cache.buf 29).refcnt == 1 then 29 ∷ inited 29 0 [] else 29 ∷ inited 29 0 []))
brelse_lem_example =
    brelse_lem held_cache [] (inited 29 0 []) 3 29 held_cache-IsCache (omega arith) (omega arith)
