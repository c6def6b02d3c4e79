-- ===== src/Fs/Vfs/Path.antt =====
-- Path lookup of fs/vfs.c: `parse_path_component` and `vfs_lookup_path`.
pub mod Walk
pub mod Single
use minix_rv.Prelude.{
  ℕ, zero, suc, ◌+◌, List, [], ◌∷◌, Bool, true, false, ◌&&◌, ◌||◌, Option, none, some, length, ◌==◌,
  if◌then◌else◌,
}
use minix_rv.Fs.Base.{same_text}
use minix_rv.Fs.Vfs.Types.{FsOps, InodeStore, Mount, World}
use minix_rv.Fs.Vfs.Mounts.{find_mount}

abbrev pub slash : ℕ
slash = b'/'

-- `while (*path == '/') path++;`
unfoldable pub skip_slashes : List ℕ → List ℕ
skip_slashes [] = []
skip_slashes (c ∷ p) = if c == slash then skip_slashes p else c ∷ p

-- Copies at most `room` characters up to the next slash, and gives the rest of the path.
pub take_component : ℕ → List ℕ → List ℕ × List ℕ
take_component zero p = ([], p)
take_component (suc room) [] = ([], [])
take_component (suc room) (c ∷ p) =
    let (name, rest) = take_component room p in if c == slash then ([], c ∷ p) else (c ∷ name, rest)

-- `parse_path_component(path, component, 256)`
unfoldable pub parse_path_component : List ℕ → List ℕ × List ℕ
unfolding skip_slashes take_component
parse_path_component path = take_component 255 (skip_slashes path)

-- The rest of the path behind what it has in common with the mount's path.
pub skip_prefix : List ℕ → List ℕ → List ℕ
skip_prefix [] path = path
skip_prefix (a ∷ mnt) [] = []
skip_prefix (a ∷ mnt) (b ∷ path) = if a == b then skip_prefix mnt path else b ∷ path

abbrev pub is_nil : List ℕ → Bool
is_nil [] = true
is_nil (c ∷ s) = false

abbrev pub dot : List ℕ
dot = b'.' ∷ []

abbrev pub dot_dot : List ℕ
dot_dot = b'.' ∷ b'.' ∷ []

module _ {S : Type 0} (inodes : InodeStore S) where
  -- One component from the directory `cur`: `.`, `..`, or what the file system looks up.
  unfoldable pub step_component : FsOps S → S → ℕ → List ℕ → Option ℕ
  step_component ops fs cur name =
      if same_text name dot
      then some cur
      else if same_text name dot_dot
      then (elim (inodes.get fs cur).parent [ none ↦ some cur | some p ↦ some p ])
      else (elim ops.lookup [ none ↦ none | some look ↦ look fs (some cur) name ])

  -- The loop over the components. The outer `none` is a loop that the fuel did not let end.
  pub walk : ℕ → FsOps S → S → ℕ → List ℕ → Option (Option ℕ)
  unfolding step_component
  walk zero ops fs cur p = none
  walk (suc fuel) ops fs cur [] = some (some cur)
  walk (suc fuel) ops fs cur (c ∷ p) = elim (is_nil (parse_path_component (c ∷ p)).0) [
    | true ↦ some (some cur)
    | false ↦ elim (step_component ops fs cur (parse_path_component (c ∷ p)).0) [
      | none ↦ some none
      | some next ↦ walk fuel ops fs next (parse_path_component (c ∷ p)).1
    ]
  ]

  -- From the mount's root, with fuel for every character.
  pub lookup_from : Mount S → S → List ℕ → Option (Option ℕ)
  unfolding walk skip_prefix
  lookup_from m fs path = elim m.root [
    | none ↦ some none
    | some root ↦
        let p = skip_prefix m.path path in
        if is_nil p || same_text p (slash ∷ [])
        then some (some root)
        else walk (suc (length p)) m.ops fs root p
  ]

  unfoldable pub lookup_path : World S → List ℕ → Option (Option ℕ)
  unfolding lookup_from
  lookup_path w [] = some none
  lookup_path w (c ∷ path) = elim (find_mount w (c ∷ path)) [
    | none ↦ some none
    | some i ↦ lookup_from (w.mount_table i) w.fs (c ∷ path)
  ]
