-- ===== src/Str.antt =====
-- The memory and string routines of lib/string.c.
-- A pointer is the list of the bytes from it to the end of its object, so that a read or a write
-- past the object is a fault, `none`. Two pointers are into objects that do not overlap. A `char`
-- is compared as the byte that it holds.
pub mod Memory
pub mod Text
pub mod Bounded
mod Tests
use mathlib.Core.Option as Option
use minix_rv.Prelude.{
  ℕ, zero, suc, ◌-◌, List, [], ◌∷◌, Bool, true, false, ◌&&◌, not, Option, none, some, ℤ, pos, sub_ℕ,
  ◌==◌, if◌then◌else◌,
}

-- The byte is written, and the rest of the object is as the later writes leave it.
abbrev pub push_byte : ℕ → Option (List ℕ) → Option (List ℕ)
push_byte c none = none
push_byte c (some m) = some (c ∷ m)

-- `n` counts down to 0, so the loop is a recursion on it.
pub memcpy : List ℕ → List ℕ → ℕ → Option (List ℕ)
memcpy d s zero = some d
memcpy [] s (suc n) = none
memcpy (x ∷ d) [] (suc n) = none
memcpy (x ∷ d) (c ∷ s) (suc n) = push_byte c (memcpy d s n)

-- `c` is already cut to an `unsigned char`.
pub memset : List ℕ → ℕ → ℕ → Option (List ℕ)
memset p c zero = some p
memset [] c (suc n) = none
memset (x ∷ p) c (suc n) = push_byte c (memset p c n)

pub memcmp : List ℕ → List ℕ → ℕ → Option ℤ
memcmp p1 p2 zero = some (pos 0)
memcmp [] p2 (suc n) = none
memcmp (a ∷ p1) [] (suc n) = none
memcmp (a ∷ p1) (b ∷ p2) (suc n) = if a == b then memcmp p1 p2 n else some (sub_ℕ a b)

pub strlen : List ℕ → Option ℕ
strlen [] = none
strlen (c ∷ s) = if c == 0 then some 0 else Option.map suc (strlen s)

pub strcmp : List ℕ → List ℕ → Option ℤ
strcmp [] s2 = none
strcmp (a ∷ s1) [] = none
strcmp (a ∷ s1) (b ∷ s2) = if not (a == 0) && a == b then strcmp s1 s2 else some (sub_ℕ a b)

-- The loop of `strncmp` ends with `n` at the maximum of `unsigned long` exactly where the count
-- ran out, which is the clause for `zero`.
pub strncmp : List ℕ → List ℕ → ℕ → Option ℤ
strncmp s1 s2 zero = some (pos 0)
strncmp [] s2 (suc n) = none
strncmp (a ∷ s1) [] (suc n) = none
strncmp (a ∷ s1) (b ∷ s2) (suc n) =
    if not (a == 0) && a == b then strncmp s1 s2 n else some (sub_ℕ a b)

pub strcpy : List ℕ → List ℕ → Option (List ℕ)
strcpy [] s = none
strcpy (x ∷ d) [] = none
strcpy (x ∷ d) (c ∷ s) = if c == 0 then some (0 ∷ d) else push_byte c (strcpy d s)

-- The second loop of `strncpy`, `while (n--) *dest++ = '\0'`.
pub pad : List ℕ → ℕ → Option (List ℕ)
pad d zero = some d
pad [] (suc n) = none
pad (x ∷ d) (suc n) = push_byte 0 (pad d n)

-- The first loop ends on the copied NUL before its `n--`.
pub strncpy : List ℕ → List ℕ → ℕ → Option (List ℕ)
unfolding pad
strncpy d s zero = pad d zero
strncpy [] s (suc n) = none
strncpy (x ∷ d) [] (suc n) = none
strncpy (x ∷ d) (c ∷ s) (suc n) =
    if c == 0 then push_byte 0 (pad d (suc n)) else push_byte c (strncpy d s n)
