-- ===== src/Fs/Vfs/Path/Walk.antt =====
-- The loop of `vfs_lookup_path` in fs/vfs.c ends, and follows the components of the path in order.
use minix_rv.Prelude.{
  ℕ, zero, suc, ◌+◌, ◌≤◌, ◌<◌, ◌≡◌, ◌≢◌, refl, sym, ap, ◌∙◌, inl, inr, List, [], ◌∷◌, true, false,
  Option, none, some, arith, ◌++◌, replicate, length, length-append, Bool-cases, Option-cases, ◌||◌,
}
use minix_rv.Fs.Base.{same_text}
use minix_rv.Fs.Vfs.Types.{FsOps, InodeStore, Mount, World}
use minix_rv.Fs.Vfs.Mounts.{find_mount}
use minix_rv.Fs.Vfs.Path.{
  slash, skip_slashes, take_component, parse_path_component, is_nil, step_component, walk,
  lookup_from, lookup_path, skip_prefix,
}

length-skip_slashes : (p : List ℕ) → length (skip_slashes p) ≤ length p
unfolding skip_slashes
length-skip_slashes [] = omega arith
length-skip_slashes (c ∷ p) = ground (arith, length-skip_slashes p)

-- The component and the rest make up the path.
length-take_component :
    (room : ℕ) (p : List ℕ)
    → length (take_component room p).0 + length (take_component room p).1 ≡ length p
unfolding take_component
length-take_component zero p = omega arith
length-take_component (suc room) [] = omega arith
length-take_component (suc room) (c ∷ p) = ground (arith, length-take_component room p)

parse_shrinks :
    (p : List ℕ)
    → is_nil (parse_path_component p).0 ≡ false
    → length (parse_path_component p).1 < length p
unfolding parse_path_component
parse_shrinks p h = ground (
  arith,
  length-take_component 255 (skip_slashes p),
  length-skip_slashes p,
  nonempty (take_component 255 (skip_slashes p)).0 h,
)
  where
    nonempty : (s : List ℕ) → is_nil s ≡ false → 0 < length s
    nonempty [] e = ground arith
    nonempty (c ∷ s) e = omega arith

abbrev pub NoSlash : List ℕ → Type 0
NoSlash [] = Unit
NoSlash (c ∷ s) = (c ≢ slash) × NoSlash s

-- A name as it can stand between slashes and fits the buffer of a component.
abbrev pub IsName : List ℕ → Type 0
IsName s = (0 < length s) × (length s ≤ 255) × NoSlash s

-- A path as its names, each behind a number of slashes, with `t` slashes at the end.
abbrev pub render : ℕ → List (ℕ × List ℕ) → List ℕ
render t [] = replicate t slash
render t ((k, name) ∷ ps) = replicate k slash ++ (name ++ render t ps)

abbrev pub names : List (ℕ × List ℕ) → List (List ℕ)
names [] = []
names ((k, name) ∷ ps) = name ∷ names ps

-- Each of the names has a slash before it.
abbrev pub Follow : List (ℕ × List ℕ) → Type 0
Follow [] = Unit
Follow ((k, name) ∷ ps) = (0 < k) × IsName name × Follow ps

-- The first name may have none.
abbrev pub IsPath : List (ℕ × List ℕ) → Type 0
IsPath [] = Unit
IsPath ((k, name) ∷ ps) = IsName name × Follow ps

Follow-IsPath : (ps : List (ℕ × List ℕ)) → Follow ps → IsPath ps
Follow-IsPath [] h = tt
Follow-IsPath ((k, name) ∷ ps) h = (h.1, h.2)

-- What follows a name: nothing, or a slash.
abbrev Stops : List ℕ → Type 0
Stops [] = Unit
Stops (c ∷ r) = c ≡ slash

render-Stops : (t : ℕ) (ps : List (ℕ × List ℕ)) → Follow ps → Stops (render t ps)
render-Stops zero [] h = tt
render-Stops (suc t) [] h = refl
render-Stops t ((zero, name) ∷ ps) h = absurd (omega (arith, h.0))
render-Stops t ((suc k, name) ∷ ps) h = refl

skip-replicate : (k : ℕ) (s : List ℕ) → skip_slashes (replicate k slash ++ s) ≡ skip_slashes s
unfolding skip_slashes
skip-replicate zero s = refl
skip-replicate (suc k) s = skip-replicate k s

skip-name : (name s : List ℕ) → IsName name → skip_slashes (name ++ s) ≡ name ++ s
unfolding skip_slashes
skip-name [] s h = absurd (omega (arith, h.0))
skip-name (c ∷ name) s h = ground (arith, h.2.0)

take-name :
    (room : ℕ) (name s : List ℕ)
    → length name ≤ room
    → NoSlash name
    → Stops s
    → take_component room (name ++ s) ≡ (name, s)
unfolding take_component
take-name zero [] s h n st = refl
take-name zero (c ∷ name) s h n st = absurd (omega arith)
take-name (suc room) [] [] h n st = refl
take-name (suc room) [] (c ∷ s) h n st = ground arith
take-name (suc room) (c ∷ name) s h n st =
    ground (arith, take-name room name s (omega arith) n.1 st, n.0)

parse-name :
    (k : ℕ) (name s : List ℕ)
    → IsName name
    → Stops s
    → parse_path_component (replicate k slash ++ (name ++ s)) ≡ (name, s)
unfolding parse_path_component
parse-name k name s h st =
    ap (take_component 255) (skip-replicate k (name ++ s) ∙ skip-name name s h)
    ∙ take-name 255 name s h.1 h.2 st

take_component-nil : (room : ℕ) → take_component room [] ≡ ([], [])
unfolding take_component
take_component-nil zero = refl
take_component-nil (suc room) = refl

skip_all : (t : ℕ) → skip_slashes (replicate t slash) ≡ []
unfolding skip_slashes
skip_all zero = refl
skip_all (suc t) = skip_all t

parse_slashes : (t : ℕ) → parse_path_component (replicate t slash) ≡ ([], [])
unfolding parse_path_component
parse_slashes t = ap (take_component 255) (skip_all t) ∙ take_component-nil 255

module _ {S : Type 0} (inodes : InodeStore S) (ops : FsOps S) (fs : S) where
  -- Names looked up one after the other.
  unfoldable pub resolve : ℕ → List (List ℕ) → Option ℕ
  resolve cur [] = some cur
  resolve cur (name ∷ rest) = elim (step_component inodes ops fs cur name) [
    | none ↦ none
    | some next ↦ resolve next rest
  ]

  walk-end :
      (fuel cur t : ℕ) → walk inodes (suc fuel) ops fs cur (replicate t slash) ≡ some (some cur)
  unfolding walk
  walk-end fuel cur zero = refl
  walk-end fuel cur (suc t) = rw (parse_slashes (suc t), walk)

  -- One round of the loop, from the component and the rest.
  round : ℕ → ℕ → List ℕ × List ℕ → Option (Option ℕ)
  round fuel cur q = elim (is_nil q.0) [
    | true ↦ some (some cur)
    | false ↦ elim (step_component inodes ops fs cur q.0) [
      | none ↦ some none
      | some next ↦ walk inodes fuel ops fs next q.1
    ]
  ]

  walk-step :
      (fuel cur : ℕ) (p name rest : List ℕ)
      → parse_path_component p ≡ (name, rest)
      → 0 < length name
      → walk inodes (suc fuel) ops fs cur p ≡ elim (step_component inodes ops fs cur name) [
        | none ↦ some none
        | some next ↦ walk inodes fuel ops fs next rest
      ]
  unfolding walk round
  walk-step fuel cur p [] rest e h = absurd (omega arith)
  walk-step fuel cur [] (x ∷ name) rest e h =
      absurd (omega (arith, ap (λ (q : List ℕ × List ℕ). length q.0) (sym e ∙ parse_slashes 0)))
  walk-step fuel cur (c ∷ p) (x ∷ name) rest e h = ap (round fuel cur) e

  -- On a path made of names of at most 255 characters, with any number of slashes between and behind
  -- them, the loop of `vfs_lookup_path` ends and looks the names up one after the other.
  pub walk-resolve :
      (fuel cur t : ℕ) (ps : List (ℕ × List ℕ))
      → IsPath ps
      → length (render t ps) < fuel
      → walk inodes fuel ops fs cur (render t ps) ≡ some (resolve cur (names ps))
  unfolding resolve
  walk-resolve zero cur t ps ok h = absurd (omega arith)
  walk-resolve (suc fuel) cur t [] ok h = walk-end fuel cur t
  walk-resolve (suc fuel) cur t ((k, name) ∷ ps) (is, after) h =
      walk-step fuel cur (render t ((k, name) ∷ ps)) name (render t ps)
        (parse-name k name (render t ps) is (render-Stops t ps after)) is.0
      ∙ go (step_component inodes ops fs cur name)
          (λ next. walk-resolve fuel next t ps (Follow-IsPath ps after) shorter)
    where
      shorter : length (render t ps) < fuel
      shorter = omega (
        arith,
        is.0,
        h,
        length-append (replicate k slash) (name ++ render t ps),
        length-append name (render t ps),
      )

      go :
          (o : Option ℕ)
          → ((next : ℕ)
              → walk inodes fuel ops fs next (render t ps) ≡ some (resolve next (names ps)))
          → ◌≡◌ {A = Option (Option ℕ)}
              (elim o [ none ↦ some none | some next ↦ walk inodes fuel ops fs next (render t ps) ])
              (some (elim o [ none ↦ none | some next ↦ resolve next (names ps) ]))
      go none ih = refl
      go (some next) ih = ih next

  -- The loop ends on every path, names of any length and all.
  pub walk_total :
      (fuel cur : ℕ) (p : List ℕ)
      → length p < fuel
      → (r : Option ℕ) × (walk inodes fuel ops fs cur p ≡ some r)
  unfolding walk
  walk_total zero cur p h = absurd (omega arith)
  walk_total (suc fuel) cur [] h = (some cur, refl)
  walk_total (suc fuel) cur (c ∷ p) h =
      elim (Bool-cases (is_nil (parse_path_component (c ∷ p)).0)) [
        | inl last ↦ (some cur, rw (last, walk))
        | inr more ↦
            let shorter = parse_shrinks (c ∷ p) more in
            elim (Option-cases
              (step_component inodes ops fs cur (parse_path_component (c ∷ p)).0)) [
                | inl missing ↦ (none, rw (more, walk) (rw (missing, walk)))
                | inr (next, found) ↦
                    let (r, e) =
                      walk_total fuel next (parse_path_component (c ∷ p)).1 (omega arith) in
                    (r, rw (more, walk) (rw (found, walk) e))
              ]
      ]

module _ {S : Type 0} (inodes : InodeStore S) where
  lookup_from_total :
      (m : Mount S) (fs : S) (path : List ℕ)
      → (r : Option ℕ) × (lookup_from inodes m fs path ≡ some r)
  unfolding lookup_from
  lookup_from_total m fs path = elim (Option-cases m.root) [
    | inl missing ↦ (none, rw (missing, lookup_from))
    | inr (root, found) ↦ elim (Bool-cases (is_nil p || same_text p (slash ∷ []))) [
      | inl at_root ↦ (some root, rw (found, lookup_from) (rw at_root))
      | inr below ↦
          let (r, e) = walk_total inodes m.ops fs (suc (length p)) root p (omega arith) in
          (r, rw (found, lookup_from) (rw below e))
    ]
  ]
    where
      p : List ℕ
      p = skip_prefix m.path path

  -- `vfs_lookup_path` returns on every path and for every table of mounts.
  pub lookup_path_total :
      (w : World S) (path : List ℕ) → (r : Option ℕ) × (lookup_path inodes w path ≡ some r)
  unfolding lookup_path
  lookup_path_total w [] = (none, refl)
  lookup_path_total w (c ∷ path) = elim (Option-cases (find_mount w (c ∷ path))) [
    | inl missing ↦ (none, rw (missing, lookup_path))
    | inr (i, found) ↦
        let (r, e) = lookup_from_total (w.mount_table i) w.fs (c ∷ path) in
        (r, rw (found, lookup_path) e)
  ]
