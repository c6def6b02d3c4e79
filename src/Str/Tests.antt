-- ===== src/Str/Tests.antt =====
-- The theorems about lib/string.c at concrete strings.
use minix_rv.Prelude.{
  ℕ, ◌≤◌, ◌<◌, ◌≡◌, List, [], ◌∷◌, ◌++◌, none, some, arith, length, drop, replicate,
}
use minix_rv.Str.{strncpy}
use minix_rv.Str.Bounded.{strncpy_short}

abbrev ab : List ℕ
ab = b'a' ∷ b'b' ∷ []

abbrev four : List ℕ
four = 9 ∷ 9 ∷ 9 ∷ 9 ∷ []

-- A buffer of 4 bytes, `strncpy(buf, "ab", 4)`: the fifth byte is written.
strncpy_short_example :
    ((4 < length four) → strncpy four (ab ++ 0 ∷ []) 4 ≡ some (ab ++ replicate 3 0 ++ drop 5 four))
    × ((length four ≤ 4) → strncpy four (ab ++ 0 ∷ []) 4 ≡ none)
strncpy_short_example = strncpy_short four ab [] 4 (omega arith) (omega arith)
