-- ===== src/Proc/Exit/Reparent.antt =====
-- Parents and children, and what `exit_notify` of kernel/exit.c does to them.
use native.Mathlib.Decide.{ℕ_discrete}
use mathlib.Core.List.{append-nil, append_assoc}
use minix_rv.Prelude.{
  ℕ, ◌+◌, ◌≤◌, ◌<◌, ◌≡◌, ◌≢◌, refl, sym, ap, ◌∙◌, some, List, [], ◌∷◌, ◌++◌, ◌==◌, if◌then◌else◌,
  occurs, occurs-remove_ne, remove, remove-none, arith,
}
use minix_rv.Fs.Base.{update}
use minix_rv.Proc.Process.{Process, init_task}
use minix_rv.Proc.Exit.{adopt, adopt_all}

-- Every child names the task in whose list it is, and is there once.
pub record IsFamily (procs : ℕ → Process) : Type 0 where
  pub named : (q p : ℕ) → 0 < occurs p (procs q).children → (procs p).parent ≡ some q
  pub once : (q p : ℕ) → occurs p (procs q).children ≤ 1

pub occurs-remove_self : (p : ℕ) (s : List ℕ) → occurs p s ≤ 1 → occurs p (remove p s) ≡ 0
unfolding remove
occurs-remove_self p [] h = refl
occurs-remove_self p (q ∷ s) h = ground (arith, occurs-remove_self p s)

remove_first : (p : ℕ) (s : List ℕ) → remove p (p ∷ s) ≡ s
unfolding remove
remove_first p s = ground arith

pub occurs-append : (p : ℕ) (s t : List ℕ) → occurs p (s ++ t) ≡ occurs p s + occurs p t
occurs-append p [] t = omega arith
occurs-append p (q ∷ s) t = ground (arith, occurs-append p s t)

module _ (procs : ℕ → Process) (child : ℕ) where
  marked-children :
      (q : ℕ)
      → (update procs child
          (record (procs child) { parent = some init_task; real_parent = some init_task })
          q).children
        ≡ (procs q).children
  marked-children q = elim (ℕ_discrete child q) [ yes e ↦ ground arith | no e ↦ ground arith ]

  adopt-removed :
      (q : ℕ)
      → (adopt child procs q).children ≡ (
          if q == init_task
          then remove child (procs init_task).children ++ child ∷ []
          else remove child (procs q).children)
  unfolding adopt
  adopt-removed q = elim (ℕ_discrete init_task q) [
    | yes e ↦ ground (arith, marked-children init_task)
    | no e ↦ ground (arith, marked-children q)
  ]

  pub adopt-parent :
      (q : ℕ)
      → (adopt child procs q).parent ≡ (if q == child then some init_task else (procs q).parent)
  unfolding adopt
  adopt-parent q = ground arith

module _ (procs : ℕ → Process) (family : IsFamily procs) (tsk child : ℕ) (other : tsk ≢ init_task)
    (mine : 0 < occurs child (procs tsk).children) where
  elsewhere : (q : ℕ) → q ≢ tsk → occurs child (procs q).children ≡ 0
  elsewhere q h = elim (ℕ_discrete (occurs child (procs q).children) 0) [
    | yes e ↦ e
    | no e ↦ absurd (h (cc (family.named q child (omega arith), family.named tsk child mine)))
  ]

  -- The child moves from its list to the end of the other.
  pub adopt-children :
      (q : ℕ)
      → (adopt child procs q).children ≡ (
          if q == init_task
          then (procs init_task).children ++ child ∷ []
          else if q == tsk
          then remove child (procs q).children
          else (procs q).children)
  adopt-children q = elim (ℕ_discrete q tsk) [
    | yes e ↦ ground (arith, adopt-removed procs child q)
    | no e ↦ ground (
      arith,
      adopt-removed procs child q,
      remove-none child (procs q).children (elsewhere q e),
      remove-none child (procs init_task).children (elsewhere init_task (λ z. other (sym z))),
    )
  ]

  moved :
      (q p : ℕ)
      → occurs p (remove child (procs q).children)
        ≡ (if p == child then 0 else occurs p (procs q).children)
  moved q p = elim (ℕ_discrete p child) [
    | yes e ↦ ground (arith, occurs-remove_self child (procs q).children (family.once q child))
    | no e ↦ ground (arith, occurs-remove_ne child p (procs q).children (λ z. e (sym z)))
  ]

  occurs-adopt :
      (q p : ℕ)
      → occurs p (adopt child procs q).children
        ≡ (if p == child then (if q == init_task then 1 else 0) else occurs p (procs q).children)
  occurs-adopt q p = elim (ℕ_discrete q init_task) [
    | yes at ↦ ground (
      arith,
      adopt-removed procs child q,
      occurs-append p (remove child (procs init_task).children) (child ∷ []),
      moved q p,
    )
    | no away ↦ ground (arith, adopt-removed procs child q, moved q p)
  ]

  pub adopt-IsFamily : IsFamily (adopt child procs)
  adopt-IsFamily = record {
    named = λ q p h. ground (arith, occurs-adopt q p, adopt-parent procs child p, family.named q p);
    once = λ q p. ground (arith, occurs-adopt q p, family.once q p);
  }

-- The children of the task `tsk` are those of `init_task` now, behind those that it had.
pub record Reparented (tsk : ℕ) (procs procs' : ℕ → Process) : Type 0 where
  pub family : IsFamily procs'
  pub left : (procs' tsk).children ≡ []
  pub adopted : (procs' init_task).children ≡ (procs init_task).children ++ (procs tsk).children
  pub others : (q : ℕ) → q ≢ tsk → q ≢ init_task → (procs' q).children ≡ (procs q).children
  pub parents :
      (p : ℕ)
      → (procs' p).parent
        ≡ (if occurs p (procs tsk).children == 0 then (procs p).parent else some init_task)

module _ (tsk : ℕ) (other : tsk ≢ init_task) where
  no-children-Reparented :
      (procs : ℕ → Process)
      → IsFamily procs
      → (procs tsk).children ≡ []
      → Reparented tsk procs procs
  no-children-Reparented procs family e = record {
    family = family;
    left = e;
    adopted = rw e (sym (append-nil _));
    others = λ q h i. refl;
    parents = λ p. rw e;
  }

  is_first :
      (child : ℕ) (l : List ℕ) (procs : ℕ → Process)
      → (procs tsk).children ≡ child ∷ l
      → 0 < occurs child (procs tsk).children
  is_first child l procs e = ground (arith, e)

  adopt-rest :
      (child : ℕ) (l : List ℕ) (procs : ℕ → Process)
      → IsFamily procs
      → (procs tsk).children ≡ child ∷ l
      → (adopt child procs tsk).children ≡ l
  adopt-rest child l procs family e = ground (
    arith,
    e,
    remove_first child l,
    adopt-children procs family tsk child other (is_first child l procs e) tsk,
  )

  -- A child moved before the others.
  Reparented-cons :
      (child : ℕ) (l : List ℕ) (procs procs' : ℕ → Process)
      → IsFamily procs
      → (procs tsk).children ≡ child ∷ l
      → Reparented tsk (adopt child procs) procs'
      → Reparented tsk procs procs'
  Reparented-cons child l procs procs' family e r =
      let mine : 0 < occurs child (procs tsk).children = is_first child l procs e in
      let now : (adopt child procs tsk).children ≡ l = adopt-rest child l procs family e in
      let there : (adopt child procs init_task).children
          ≡ (procs init_task).children ++ child ∷ [] =
        ground (arith, adopt-children procs family tsk child other mine init_task) in
      record {
        family = r.family;
        left = r.left;
        adopted = rw e (
            r.adopted
            ∙ ap (λ t. (adopt child procs init_task).children ++ t) now
            ∙ ap (λ t. t ++ l) there
            ∙ append_assoc (procs init_task).children (child ∷ []) l);
        others = λ q h i.
            ground (arith, r.others q h i, adopt-children procs family tsk child other mine q);
        parents = λ p. ground (arith, r.parents p, adopt-parent procs child p, now, e);
      }

  pub adopt_all-Reparented :
      (l : List ℕ) (procs : ℕ → Process)
      → IsFamily procs
      → (procs tsk).children ≡ l
      → Reparented tsk procs (adopt_all l procs)
  unfolding adopt_all
  adopt_all-Reparented [] procs family e = no-children-Reparented procs family e
  adopt_all-Reparented (child ∷ l) procs family e =
      Reparented-cons child l procs (adopt_all l (adopt child procs)) family e (
        adopt_all-Reparented l (adopt child procs)
          (adopt-IsFamily procs family tsk child other (is_first child l procs e))
          (adopt-rest child l procs family e))
