-- ===== src/Strings/Examples.antt =====
-- The theorems about kernel/string.c at small memories.
use jklnkhbv.Base.{◌≡◌}
use jklnkhbv.Strings.{Bytes, memmove}
use jklnkhbv.Strings.Move.{moved, memmove_lem}

abbrev counting : Bytes
counting a = a

-- An overlapping move.
memmove_lem_example : memmove 12 10 5 counting 14 ≡ moved 12 10 5 counting 14
memmove_lem_example = memmove_lem 12 10 5 counting 14
