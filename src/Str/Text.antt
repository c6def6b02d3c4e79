-- ===== src/Str/Text.antt =====
-- What the routines of lib/string.c on NUL-terminated strings do. The string of the characters `s`
-- lies in an object as `s ++ 0 ∷ r`, with anything, `r`, behind its NUL.
use mathlib.Core.Option as Option
use minix_rv.Prelude.{
  ℕ, zero, suc, ◌+◌, ◌≤◌, ◌<◌, ◌≡◌, refl, ◌↔◌, List, [], ◌∷◌, ◌++◌, Bool, true, false, none, some,
  pos, is_negative, arith, length, take, drop, NoNul, ltb, ◌==◌, if◌then◌else◌,
}
use minix_rv.Str.{strlen, strcmp, strncmp, strcpy}

-- `strlen` of a terminated string is the number of its characters.
pub strlen-length : (s r : List ℕ) → NoNul s → strlen (s ++ 0 ∷ r) ≡ some (length s)
unfolding strlen
strlen-length [] r h = refl
strlen-length (c ∷ s) r h = ground (arith, strlen-length s r)

-- The order of a dictionary, a prefix first.
abbrev pub precedes : List ℕ → List ℕ → Bool
precedes s [] = false
precedes [] (b ∷ t) = true
precedes (a ∷ s) (b ∷ t) = if a == b then precedes s t else ltb a b

-- `strcmp` of terminated strings returns 0 exactly if they are equal, and a negative number exactly
-- if the first precedes the second in the order of a dictionary; it never reads past a NUL.
pub strcmp_iff :
    (s t r u : List ℕ)
    → NoNul s
    → NoNul t
    → ((strcmp (s ++ 0 ∷ r) (t ++ 0 ∷ u) ≡ some (pos 0)) ↔ (s ≡ t))
      × (Option.map is_negative (strcmp (s ++ 0 ∷ r) (t ++ 0 ∷ u)) ≡ some (precedes s t))
unfolding strcmp
strcmp_iff [] [] r u h k = ((λ _. refl, λ _. refl), refl)
strcmp_iff [] (b ∷ t) r u h k = ground arith
strcmp_iff (a ∷ s) [] r u h k = ground arith
strcmp_iff (a ∷ s) (b ∷ t) r u h k =
    let ih = strcmp_iff s t r u h.1 k.1 in
    ((λ e. ground (arith, ih.0.0), λ e. ground (arith, ih.0.1)), ground (arith, ih.1))

-- `strncmp` of terminated strings is `strcmp` of the strings cut to their first `n` characters.
pub strncmp-take :
    (s t r u : List ℕ) (n : ℕ)
    → NoNul s
    → NoNul t
    → strncmp (s ++ 0 ∷ r) (t ++ 0 ∷ u) n ≡ strcmp (take n s ++ 0 ∷ r) (take n t ++ 0 ∷ u)
unfolding strncmp strcmp
strncmp-take s t r u zero h k = refl
strncmp-take [] [] r u (suc n) h k = refl
strncmp-take [] (b ∷ t) r u (suc n) h k = refl
strncmp-take (a ∷ s) [] r u (suc n) h k = ground arith
strncmp-take (a ∷ s) (b ∷ t) r u (suc n) h k = ground (arith, strncmp-take s t r u n)

-- `strcpy` copies the characters and the NUL, and nothing else, if the destination has room for
-- them; it faults if not.
pub strcpy_lem :
    (d s r : List ℕ)
    → NoNul s
    → ((length s < length d) → strcpy d (s ++ 0 ∷ r) ≡ some (s ++ 0 ∷ drop (length s + 1) d))
      × ((length d ≤ length s) → strcpy d (s ++ 0 ∷ r) ≡ none)
unfolding strcpy
strcpy_lem [] s r h = (λ k. absurd (omega arith), λ _. refl)
strcpy_lem (x ∷ d) [] r h = (λ _. refl, λ k. absurd (omega arith))
strcpy_lem (x ∷ d) (c ∷ s) r h =
    let ih = strcpy_lem d s r h.1 in (λ k. ground (arith, ih.0), λ k. ground (arith, ih.1))
