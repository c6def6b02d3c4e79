-- ===== src/Fs/Vfs/Calls/OnRamfs.antt =====
-- `vfs_mkdir` and `vfs_lookup_path` of fs/vfs.c with fs/ramfs.c mounted on "/".
use minix_rv.Prelude.{
  ℕ, suc, ◌≤◌, ◌<◌, ◌≡◌, refl, sym, ap, ◌∙◌, List, [], ◌∷◌, Option, none, some, arith, ℤ, pos,
  length,
}
use minix_rv.Fs.Ramfs as Ramfs
use minix_rv.Fs.Ramfs.{State, max_files, add_entry}
use minix_rv.Fs.Ramfs.Valid.{IsValid}
use minix_rv.Fs.Ramfs.Dir.{copy_text_short, mkdir-add_entry, lookup-mkdir_self}
use minix_rv.Fs.Ramfs.Ops.{ramfs_ops, ramfs_inodes}
use minix_rv.Fs.Vfs.Types.{World}
use minix_rv.Fs.Vfs.Path.{slash, skip_slashes, step_component, lookup_path}
use minix_rv.Fs.Vfs.Path.Walk.{NoSlash, IsName}
use minix_rv.Fs.Vfs.Path.Single.{RootOnly, IsPlain, find_mount-root, lookup_path-plain}
use minix_rv.Fs.Vfs.Calls.{last_slash, last_slash_from, target, target_in_root, call_mkdir, mkdir}

last_slash_from-NoSlash :
    (s : List ℕ) (i : ℕ) (last : Option ℕ) → NoSlash s → last_slash_from s i last ≡ last
unfolding last_slash_from
last_slash_from-NoSlash [] i last h = refl
last_slash_from-NoSlash (c ∷ s) i last h =
    ground (arith, h.0, last_slash_from-NoSlash s (suc i) last h.1)

skip-name : (name : List ℕ) → IsName name → skip_slashes name ≡ name
unfolding skip_slashes
skip-name [] h = refl
skip-name (c ∷ name) h = ground (arith, h.2.0)

module _ {w : World State} (r : RootOnly w ramfs_ops 0) {name : List ℕ} (h : IsPlain name) where
  step-lookup :
      (s : State) → step_component ramfs_inodes ramfs_ops s 0 name ≡ Ramfs.lookup s (some 0) name
  unfolding step_component
  step-lookup s = rw h.not_dot (rw h.not_dot_dot refl)

  target-plain :
      target ramfs_inodes w (w.mount_table 0) (slash ∷ name)
      ≡ some (record { parent = some 0; name = name })
  unfolding target last_slash target_in_root skip_slashes
  target-plain =
      rw (last_slash_from-NoSlash name 1 (some 0) h.is.2, target)
        (rw (skip-name name h.is) (rw (copy_text_short 255 name h.is.1) (rw r.root refl)))

  mkdir-plain :
      (mode : ℕ)
      → mkdir ramfs_inodes w (slash ∷ name) mode
        ≡ (let (n, s) = Ramfs.mkdir w.fs 0 name mode in some (n, record w { fs = s }))
  unfolding mkdir call_mkdir
  mkdir-plain mode = rw (find_mount-root r name, mkdir) (rw target-plain (rw r.ops refl))

-- With ramfs alone, on "/": where `vfs_lookup_path` finds nothing at "/name", the name has at most 63
-- characters and is not a dot name, and a slot is free, `vfs_mkdir` of the path returns 0, and a
-- lookup of the path then gives the inode in the slot that was free.
pub lookup_path-mkdir :
    (w : World State)
    → RootOnly w ramfs_ops 0
    → IsValid w.fs
    → (name : List ℕ) (mode : ℕ) → IsPlain name
    → length name ≤ 63
    → w.fs.file_count < max_files
    → lookup_path ramfs_inodes w (slash ∷ name) ≡ some none
    → (w' : World State) × (mkdir ramfs_inodes w (slash ∷ name) mode ≡ some (pos 0, w'))
      × (lookup_path ramfs_inodes w' (slash ∷ name) ≡ some (some w.fs.file_count))
lookup_path-mkdir w r v name mode h short room new = (
  w',
  mkdir-plain r h mode ∙ ap (λ (q : ℤ × State). some (q.0, record w { fs = q.1 })) made,
  lookup_path-plain (after r) ramfs_inodes h
      ∙ ap (λ o. some o)
          (step-lookup r h w'.fs ∙ lookup-mkdir_self v 0 name mode v.rooted short made),
)
  where
    w' : World State
    w' = record w { fs = add_entry w.fs 0 name mode }

    after : RootOnly w ramfs_ops 0 → RootOnly w' ramfs_ops 0
    after q = record { one = q.one; path = q.path; root = q.root; ops = q.ops }

    some-eq : {a b : Option ℕ} → some a ≡ some b → a ≡ b
    some-eq e = cc

    made : Ramfs.mkdir w.fs 0 name mode ≡ (pos 0, add_entry w.fs 0 name mode)
    made =
        mkdir-add_entry v 0 name mode v.rooted room
          (sym (step-lookup r h w.fs) ∙ some-eq (sym (lookup_path-plain r ramfs_inodes h) ∙ new))
