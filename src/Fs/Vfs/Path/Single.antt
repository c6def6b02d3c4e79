-- ===== src/Fs/Vfs/Path/Single.antt =====
-- `vfs_find_mount` and `vfs_lookup_path` of fs/vfs.c with one file system, mounted on "/".
use mathlib.Core.Path.{subst}
use minix_rv.Prelude.{
  ℕ, suc, ◌≡◌, refl, sym, ap, ◌∙◌, inl, inr, List, [], ◌∷◌, ◌++◌, false, ◌||◌, Option, none, some,
  arith, length, Option-cases,
}
use minix_rv.Fs.Base.{same_text}
use minix_rv.Fs.Vfs.Types.{FsOps, InodeStore, World}
use minix_rv.Fs.Vfs.Mounts.{find_mount}
use minix_rv.Fs.Vfs.Mounts.Longest.{IsLongest, find_mount-IsLongest}
use minix_rv.Fs.Vfs.Path.{
  slash, dot, dot_dot, is_nil, skip_prefix, step_component, walk, lookup_from, lookup_path,
}
use minix_rv.Fs.Vfs.Path.Walk.{IsName, resolve, walk-resolve}

-- The only mount is on "/", and its root is the inode `root`.
pub record RootOnly {S : Type 0} (w : World S) (system : FsOps S) (inode : ℕ) : Type 0 where
  pub one : w.num_mounts ≡ 1
  pub path : (w.mount_table 0).path ≡ slash ∷ []
  pub root : (w.mount_table 0).root ≡ some inode
  pub ops : (w.mount_table 0).ops ≡ system

-- A name that is neither "." nor "..".
pub record IsPlain (name : List ℕ) : Type 0 where
  pub is : IsName name
  pub not_dot : same_text name dot ≡ false
  pub not_dot_dot : same_text name dot_dot ≡ false

append-nil : (s : List ℕ) → s ++ [] ≡ s
append-nil [] = refl
append-nil (c ∷ s) = ap (λ t. c ∷ t) (append-nil s)

module _ {S : Type 0} {w : World S} {ops : FsOps S} {root : ℕ} (r : RootOnly w ops root) where
  pub find_mount-root : (p : List ℕ) → find_mount w (slash ∷ p) ≡ some 0
  find_mount-root p = elim (Option-cases (find_mount w (slash ∷ p))) [
    | inl e ↦
        absurd (none_found (subst (IsLongest w (slash ∷ p)) e (find_mount-IsLongest w (slash ∷ p))))
    | inr (i, e) ↦
        e
        ∙ ap (λ k. some k)
            (first_found i (subst (IsLongest w (slash ∷ p)) e (find_mount-IsLongest w (slash ∷ p))))
  ]
    where
      none_found : ¬ IsLongest w (slash ∷ p) none
      none_found h =
          omega
            (arith, h 0 (omega (arith, r.one)) (p, ap (λ q. q ++ p) (sym r.path)), ap length r.path)

      first_found : (i : ℕ) → IsLongest w (slash ∷ p) (some i) → i ≡ 0
      first_found i h = omega (arith, h.0, r.one)

  module _ (inodes : InodeStore S) {name : List ℕ} (h : IsPlain name) where
    walk-plain :
        (fs : S)
        → walk inodes (suc (length name)) ops fs root name
          ≡ some (step_component inodes ops fs root name)
    unfolding resolve
    walk-plain fs =
        ap (walk inodes (suc (length name)) ops fs root) (sym (append-nil name))
        ∙ walk-resolve inodes ops fs (suc (length name)) root 0 ((0, name) ∷ []) (h.is, tt)
            (omega (arith, ap length (append-nil name)))
        ∙ ap (λ o. some o) (same (step_component inodes ops fs root name))
      where
        same : (o : Option ℕ) → ◌≡◌ {A = Option ℕ} (elim o [ none ↦ none | some n ↦ some n ]) o
        same none = refl
        same (some n) = refl

    below_root : (is_nil name || same_text name (slash ∷ [])) ≡ false
    unfolding same_text
    below_root = go name h.is
      where
        go : (s : List ℕ) → IsName s → (is_nil s || same_text s (slash ∷ [])) ≡ false
        go [] is = absurd (omega (arith, is.0))
        go (c ∷ s) is = ground (arith, is.2.0)

    -- A name of the root directory is looked up by the file system, in its root.
    pub lookup_path-plain :
        lookup_path inodes w (slash ∷ name) ≡ some (step_component inodes ops w.fs root name)
    unfolding lookup_path lookup_from skip_prefix
    lookup_path-plain =
        rw (find_mount-root name, lookup_path)
          (rw r.root (rw r.path (rw below_root (rw r.ops (walk-plain w.fs)))))
