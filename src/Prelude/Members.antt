-- ===== src/Prelude/Members.antt =====
-- How often a number is in a list, and the list without its first occurrence.
use Prim.Native.Nat.{ℕ, suc, ◌+◌, ◌<◌}
use mathlib.Core.Path.{◌≡◌, refl}
use mathlib.Core.Logic.{◌≢◌, inl, inr}
use mathlib.Core.List.{List, [], ◌∷◌}
use native.Mathlib.Omega.{arith}
use minix_rv.Prelude.Tests.{◌==◌, if◌then◌else◌, Bool-cases}
use minix_rv.Prelude.Lists.{length}

abbrev pub occurs : ℕ → List ℕ → ℕ
occurs p [] = 0
occurs p (q ∷ s) = if q == p then suc (occurs p s) else occurs p s

unfoldable pub remove : ℕ → List ℕ → List ℕ
remove p [] = []
remove p (q ∷ s) = if q == p then s else q ∷ remove p s

pub remove-none : (p : ℕ) (s : List ℕ) → occurs p s ≡ 0 → remove p s ≡ s
unfolding remove
remove-none p [] h = refl
remove-none p (q ∷ s) h = elim (Bool-cases (q == p)) [
  | inl same ↦ ground arith
  | inr other ↦ ground (arith, remove-none p s)
]

pub length-remove : (p : ℕ) (s : List ℕ) → 0 < occurs p s → length (remove p s) + 1 ≡ length s
unfolding remove
length-remove p [] h = absurd (omega arith)
length-remove p (q ∷ s) h = elim (Bool-cases (q == p)) [
  | inl same ↦ ground arith
  | inr other ↦ ground (arith, length-remove p s)
]

pub occurs-remove_ne : (p q : ℕ) (s : List ℕ) → p ≢ q → occurs q (remove p s) ≡ occurs q s
unfolding remove
occurs-remove_ne p q [] h = refl
occurs-remove_ne p q (r ∷ s) h = ground (arith, occurs-remove_ne p q s h)
