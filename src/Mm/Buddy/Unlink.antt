-- ===== src/Mm/Buddy/Unlink.antt =====
-- A doubly linked list without one of its pages.
use mathlib.Core.Path.{subst}
use native.Mathlib.Decide.{ℕ_discrete}
use minix_rv.Prelude.{
  ℕ, ◌≤◌, ◌<◌, ◌≡◌, ◌≢◌, refl, sym, ap, ◌∙◌, List, [], ◌∷◌, Option, none, some, arith, occurs,
  remove,
}
use minix_rv.Mm.Buddy.Links.{
  Links, Links-frame, same_some, next-mem, prev-mem, back_of_head, head_without, head_without-eq,
  head_without-ne, head-ne-none,
}

module _ (nx pv : ℕ → Option ℕ) (p : ℕ) where
  -- Without `p`, given what the pointers of the others become.
  module _ (nx' pv' : ℕ → Option ℕ) (next_of : (q : ℕ) → q ≢ p → pv p ≡ some q → nx' q ≡ nx p)
      (next_kept : (q : ℕ) → q ≢ p → pv p ≢ some q → nx' q ≡ nx q)
      (prev_of : (q : ℕ) → q ≢ p → nx p ≡ some q → pv' q ≡ pv p)
      (prev_kept : (q : ℕ) → q ≢ p → nx p ≢ some q → pv' q ≡ pv q) where
    -- The list behind `p`, at its head.
    remove-first :
        (prev : Option ℕ) (l : List ℕ)
        → ((q : ℕ) → occurs q (p ∷ l) ≤ 1)
        → ((q : ℕ) → prev ≡ some q → occurs q (p ∷ l) ≡ 0)
        → pv p ≡ prev
        → Links nx pv (some p) l (nx p)
        → Links nx' pv' prev l (nx p)
    remove-first prev [] once out back rest = rest
    remove-first prev (r ∷ l) once out back (at, back', rest) = (
      at,
      prev_of r apart at ∙ back,
      subst (Links nx' pv' (some r) l)
          (sym (next_kept r apart (λ z. ground (arith, out r (sym back ∙ z)))))
          (Links-frame nx pv nx' pv' (some r) l (nx r)
            (λ q i. (
              next_kept q (away q i).0 (λ z. ground (arith, out q (sym back ∙ z), i)),
              prev_kept q (away q i).0 (λ z. (away q i).1 (same_some nx pv p q r (sym z ∙ at))),
            ))
            rest),
    )
      where
        apart : r ≢ p
        apart z = ground (arith, once p, z)

        away : (q : ℕ) → 0 < occurs q l → (q ≢ p) × (q ≢ r)
        away q i = (λ z. ground (arith, once q, z, i), λ z. ground (arith, once q, z, i))

    pub Links-remove :
        (prev : Option ℕ) (l : List ℕ) (head : Option ℕ)
        → ((q : ℕ) → occurs q l ≤ 1)
        → ((q : ℕ) → prev ≡ some q → (q ≢ p) × (occurs q l ≡ 0))
        → Links nx pv prev l head
        → 0 < occurs p l
        → Links nx' pv' prev (remove p l) (head_without nx pv p head)
    unfolding remove
    Links-remove prev [] head once out h i = absurd (omega arith)
    Links-remove prev (q ∷ l) head once out (at, back, rest) i = elim (ℕ_discrete q p) [
      | yes same ↦
          subst (Links nx' pv' prev (remove p (q ∷ l)))
            (sym (head_without-eq nx pv p head q at same))
            (subst (λ s. Links nx' pv' prev s (nx p)) (sym (first same))
              (remove-first prev l (subst (λ k. (r : ℕ) → occurs r (k ∷ l) ≤ 1) same once)
                (subst (λ k. (r : ℕ) → prev ≡ some r → occurs r (k ∷ l) ≡ 0) same
                  (λ r e. (out r e).1))
                (ap pv (sym same) ∙ back) (subst (λ k. Links nx pv (some k) l (nx k)) same rest)))
      | no ne ↦
          subst (λ s. Links nx' pv' prev s (head_without nx pv p head)) (sym (later ne))
            (
              ap (head_without nx pv p) at ∙ head_without-ne nx pv p q ne,
              prev_kept q ne (λ z.
                    ground (arith, once q, next-mem nx pv p (some q) l (nx q) q rest (behind ne) z))
                  ∙ back,
              subst (Links nx' pv' (some q) (remove p l)) (sym (onward ne)) (
                  Links-remove (some q) l (nx q) (λ r. ground (arith, once r))
                    (λ r e. (
                      λ z. ne (same_some nx pv p q r e ∙ z),
                      ground (arith, once q, same_some nx pv p q r e),
                    ))
                    rest (behind ne)),
            )
    ]
      where
        first : q ≡ p → remove p (q ∷ l) ≡ l
        first same = ground arith

        later : q ≢ p → remove p (q ∷ l) ≡ q ∷ remove p l
        later ne = ground arith

        behind : q ≢ p → 0 < occurs p l
        behind ne = ground arith

        onward_to : q ≢ p → (o : Option ℕ) → nx q ≡ o → nx' q ≡ head_without nx pv p o
        onward_to ne none e = absurd (head-ne-none nx pv p (some q) l (nx q) rest (behind ne) e)
        onward_to ne (some r) e = elim (ℕ_discrete r p) [
          | yes same ↦
              next_of q ne
                (back_of_head nx pv p (some q) l (nx q) rest (e ∙ ap (λ (k : ℕ). some k) same))
              ∙ sym (head_without-eq nx pv p (some r) r refl same)
          | no away ↦
              next_kept q ne (λ z. ground (
                arith,
                once q,
                prev-mem nx pv p (some q) l (nx q) q rest (behind ne)
                    (λ y. away (same_some nx pv p r p (sym e ∙ y))) z,
              ))
              ∙ e
              ∙ sym (head_without-ne nx pv p r away)
        ]

        onward : q ≢ p → nx' q ≡ head_without nx pv p (nx q)
        onward ne = onward_to ne (nx q) refl
