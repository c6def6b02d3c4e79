-- ===== src/Mm/Buddy/Links.antt =====
-- Doubly linked free lists: what the pointers `next` and `prev` of the pages stand for.
use mathlib.Core.Path.{subst}
use native.Mathlib.Decide.{ℕ_discrete}
use minix_rv.Prelude.{
  ℕ, ◌≤◌, ◌<◌, ◌≡◌, ◌≢◌, refl, sym, ap, ◌∙◌, List, [], ◌∷◌, Option, none, some, arith, ◌==◌,
  if◌then◌else◌, occurs,
}

-- From `head` the pointers lead through the pages of the list, each of which points back.
abbrev pub Links : (ℕ → Option ℕ) → (ℕ → Option ℕ) → Option ℕ → List ℕ → Option ℕ → Type 0
Links nx pv prev [] head = head ≡ none
Links nx pv prev (p ∷ l) head = (head ≡ some p) × (pv p ≡ prev) × Links nx pv (some p) l (nx p)

module _ (nx pv nx' pv' : ℕ → Option ℕ) where
  -- A list survives any change that spares its own pages.
  pub Links-frame :
      (prev : Option ℕ) (l : List ℕ) (head : Option ℕ)
      → ((q : ℕ) → 0 < occurs q l → (nx' q ≡ nx q) × (pv' q ≡ pv q))
      → Links nx pv prev l head
      → Links nx' pv' prev l head
  Links-frame prev [] head same h = h
  Links-frame prev (p ∷ l) head same (at, back, rest) =
      let (same_next, same_prev) = same p (ground arith) in
      (
        at,
        same_prev ∙ back,
        rw same_next (Links-frame (some p) l (nx p) (λ q i. same q (ground arith)) rest),
      )

  -- The page `p` goes to the front.
  pub Links-push :
      (p : ℕ) (l : List ℕ) (head : Option ℕ)
      → occurs p l ≡ 0
      → ((q : ℕ) → occurs q l ≤ 1)
      → nx' p ≡ head
      → pv' p ≡ none
      → ((q : ℕ) → q ≢ p → nx' q ≡ nx q)
      → ((q : ℕ) → q ≢ p → head ≡ some q → pv' q ≡ some p)
      → ((q : ℕ) → q ≢ p → head ≢ some q → pv' q ≡ pv q)
      → Links nx pv none l head
      → Links nx' pv' none (p ∷ l) (some p)
  Links-push p [] head out once a b c d e h = (refl, b, a ∙ h)
  Links-push p (q ∷ l) head out once a b c d e (at, back, rest) = (
    refl,
    b,
    (
      a ∙ at,
      d q other at,
      subst (Links nx' pv' (some q) l) (sym (c q other)) (
          Links-frame (some q) l (nx q)
            (λ r i. (
              c r (apart r i).0,
              e r (apart r i).0 (λ z. (apart r i).1 (same_head r (sym at ∙ z))),
            ))
            rest),
    ),
  )
    where
      other : q ≢ p
      other z = ground (arith, out, z)

      apart : (r : ℕ) → 0 < occurs r l → (r ≢ p) × (r ≢ q)
      apart r i = (λ z. ground (arith, out, z, i), λ z. ground (arith, once r, z, i))

      same_head : (r : ℕ) → some q ≡ some r → r ≡ q
      same_head r z = cc

-- The neighbours of a page `p` of the list.
module _ (nx pv : ℕ → Option ℕ) (p : ℕ) where
  -- The head of the list afterwards.
  abbrev pub head_without : Option ℕ → Option ℕ
  head_without none = none
  head_without (some q) = if q == p then nx p else some q

  pub same_some : (q r : ℕ) → some q ≡ some r → q ≡ r
  same_some q r z = cc

  -- Where `p` has a successor, it is in the list.
  pub next-mem :
      (prev : Option ℕ) (l : List ℕ) (head : Option ℕ) (r : ℕ)
      → Links nx pv prev l head
      → 0 < occurs p l
      → nx p ≡ some r
      → 0 < occurs r l
  next-mem prev [] head r h i e = absurd (omega arith)
  next-mem prev (q ∷ []) head r (at, back, rest) i e = elim (ℕ_discrete q p) [
    | yes same ↦ cc (ap nx same, rest, e)
    | no ne ↦ absurd (ground arith)
  ]
  next-mem prev (q ∷ s ∷ l) head r (at, back, rest) i e = elim (ℕ_discrete q p) [
    | yes same ↦ ground (arith, same_some s r (sym rest.0 ∙ ap nx same ∙ e))
    | no ne ↦ ground (arith, next-mem (some q) (s ∷ l) (nx q) r rest (ground arith) e)
  ]

  -- The predecessor of `p` is in the list, unless `p` is at its head.
  pub prev-mem :
      (prev : Option ℕ) (l : List ℕ) (head : Option ℕ) (r : ℕ)
      → Links nx pv prev l head
      → 0 < occurs p l
      → head ≢ some p
      → pv p ≡ some r
      → 0 < occurs r l
  prev-mem prev [] head r h i ne e = absurd (omega arith)
  prev-mem prev (q ∷ []) head r (at, back, rest) i ne e = absurd (ne (at ∙ ground arith))
  prev-mem prev (q ∷ s ∷ l) head r (at, back, rest) i ne e = elim (ℕ_discrete s p) [
    | yes same ↦ ground (arith, same_some q r (sym rest.1 ∙ ap pv same ∙ e))
    | no other ↦
        let inside =
          prev-mem (some q) (s ∷ l) (nx q) r rest
            (elim (ℕ_discrete q p) [
              | yes same ↦ absurd (ne (at ∙ ap (λ (k : ℕ). some k) same))
              | no away ↦ ground arith
            ])
            (λ z. other (same_some s p (sym rest.0 ∙ z))) e in
        ground (arith, inside)
  ]

  pub head_without-ne : (q : ℕ) → q ≢ p → head_without (some q) ≡ some q
  head_without-ne q ne = ground arith

  pub head-ne-none :
      (prev : Option ℕ) (l : List ℕ) (head : Option ℕ)
      → Links nx pv prev l head
      → 0 < occurs p l
      → head ≢ none
  head-ne-none prev [] head h i e = absurd (omega arith)
  head-ne-none prev (q ∷ l) head (at, back, rest) i e = cc

  pub back_of_head :
      (prev : Option ℕ) (l : List ℕ) (head : Option ℕ)
      → Links nx pv prev l head
      → head ≡ some p
      → pv p ≡ prev
  back_of_head prev [] head h e = absurd (cc)
  back_of_head prev (q ∷ l) head (at, back, rest) e = ap pv (same_some p q (sym e ∙ at)) ∙ back

  pub head_without-eq : (head : Option ℕ) (q : ℕ) → head ≡ some q → q ≡ p → head_without head ≡ nx p
  head_without-eq none q e same = absurd (cc)
  head_without-eq (some r) q e same = ground (arith, same_some r q e)

  pub head_without-other : (head : Option ℕ) → head ≢ some p → head_without head ≡ head
  head_without-other none h = refl
  head_without-other (some q) h = head_without-ne q (λ z. h (ap (λ (k : ℕ). some k) z))

  -- The head of a list is its first page.
  pub head-mem :
      (prev : Option ℕ) (l : List ℕ) (head : Option ℕ)
      → Links nx pv prev l head
      → head ≡ some p
      → 0 < occurs p l
  head-mem prev [] head h e = absurd (cc)
  head-mem prev (q ∷ l) head (at, back, rest) e = ground (arith, same_some q p (sym at ∙ e))

  pub next_ne_self :
      (prev : Option ℕ) (l : List ℕ) (head : Option ℕ)
      → ((q : ℕ) → occurs q l ≤ 1)
      → Links nx pv prev l head
      → 0 < occurs p l
      → nx p ≢ some p
  next_ne_self prev [] head once h i e = absurd (omega arith)
  next_ne_self prev (q ∷ l) head once (at, back, rest) i e = elim (ℕ_discrete q p) [
    | yes same ↦ ground (arith, once p, same, head-mem (some q) l (nx q) rest (ap nx same ∙ e))
    | no ne ↦ next_ne_self (some q) l (nx q) (λ r. ground (arith, once r)) rest (ground arith) e
  ]

  pub prev_ne_self :
      (prev : Option ℕ) (l : List ℕ) (head : Option ℕ)
      → prev ≢ some p
      → Links nx pv prev l head
      → 0 < occurs p l
      → pv p ≢ some p
  prev_ne_self prev [] head out h i e = absurd (omega arith)
  prev_ne_self prev (q ∷ l) head out (at, back, rest) i e = elim (ℕ_discrete q p) [
    | yes same ↦ out (sym back ∙ ap pv same ∙ e)
    | no ne ↦ prev_ne_self (some q) l (nx q) (λ z. ne (same_some q p z)) rest (ground arith) e
  ]

  prev-ne-none :
      (a : ℕ) (l : List ℕ) (head : Option ℕ)
      → Links nx pv (some a) l head
      → 0 < occurs p l
      → pv p ≢ none
  prev-ne-none a [] head h i e = absurd (omega arith)
  prev-ne-none a (q ∷ l) head (at, back, rest) i e = elim (ℕ_discrete q p) [
    | yes same ↦ cc (ap pv same, back, e)
    | no ne ↦ prev-ne-none q l (nx q) rest (ground arith) e
  ]

  -- Only the head has no predecessor.
  pub head_of_back :
      (l : List ℕ) (head : Option ℕ)
      → Links nx pv none l head
      → 0 < occurs p l
      → pv p ≡ none
      → head ≡ some p
  head_of_back [] head h i e = absurd (omega arith)
  head_of_back (q ∷ l) head (at, back, rest) i e = elim (ℕ_discrete q p) [
    | yes same ↦ at ∙ ap (λ (k : ℕ). some k) same
    | no ne ↦ absurd (prev-ne-none q l (nx q) rest (ground arith) e)
  ]
