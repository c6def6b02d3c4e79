-- ===== src/Fs/Devfs/Register.antt =====
-- What fs/devfs.c finds after a device is registered.
use minix_rv.Prelude.{
  ℕ, zero, suc, ◌+◌, ◌≤◌, ◌<◌, ◌≡◌, ◌≢◌, refl, sym, ap, ◌∙◌, inl, inr, true, false, Option, none,
  some, pos, List, [], ◌∷◌, leb, if◌then◌else◌, arith, length, Bool-cases, Option-cases,
}
use minix_rv.Fs.Base.{update, same_text, same_text_iff, copy_text}
use minix_rv.Fs.Devfs.{
  DevNode, DevfsState, max_dev_nodes, find_node_from, find_node, devfs_lookup, new_node, add_node,
  register_device,
}

copy_text-short : (max : ℕ) (s : List ℕ) → length s ≤ max → copy_text max s ≡ s
unfolding copy_text
copy_text-short zero [] h = refl
copy_text-short zero (c ∷ s) h = absurd (omega (arith, h))
copy_text-short (suc max) [] h = refl
copy_text-short (suc max) (c ∷ s) h = ap (λ l. c ∷ l) (copy_text-short max s (omega (arith, h)))

-- A search over one node more.
find_node_from-snoc :
    (nodes : ℕ → DevNode) (n i k : ℕ) (node : DevNode) (name : List ℕ)
    → k ≡ i + n
    → find_node_from (update nodes k node) (suc n) i name ≡ (elim (find_node_from nodes n i name) [
      | some j ↦ some j
      | none ↦ if same_text node.name name then some k else none
    ])
unfolding find_node_from
find_node_from-snoc nodes zero i k node name e =
    ap (λ (d : DevNode). if same_text d.name name then some i else none) here
    ∙ ap (λ m. if same_text node.name name then some m else none) (omega (arith, e))
  where
    here : update nodes k node i ≡ node
    here = ground (arith, e)
find_node_from-snoc nodes (suc n) i k node name e =
    ap (λ (d : DevNode). if same_text d.name name then some i else rest) there
    ∙ (elim (Bool-cases (same_text (nodes i).name name)) [
      | inl same ↦ rw same refl
      | inr other ↦ rw other (find_node_from-snoc nodes n (suc i) k node name (omega (arith, e)))
    ])
  where
    rest : Option ℕ
    rest = find_node_from (update nodes k node) (suc n) (suc i) name

    there : update nodes k node i ≡ nodes i
    there = ground (arith, e)

find_node_from-lt :
    (nodes : ℕ → DevNode) (n i j : ℕ) (name : List ℕ)
    → find_node_from nodes n i name ≡ some j
    → j < i + n
unfolding find_node_from
find_node_from-lt nodes zero i j name e = absurd (cc)
find_node_from-lt nodes (suc n) i j name e = elim (Bool-cases (same_text (nodes i).name name)) [
  | inl same ↦ omega (arith, inj i j (sym (first same) ∙ e))
  | inr other ↦ omega (arith, find_node_from-lt nodes n (suc i) j name (sym (later other) ∙ e))
]
  where
    inj : (x y : ℕ) → some x ≡ some y → x ≡ y
    inj x y z = cc

    first : same_text (nodes i).name name ≡ true → find_node_from nodes (suc n) i name ≡ some i
    first same = rw (same, find_node_from) refl

    later :
        same_text (nodes i).name name ≡ false
        → find_node_from nodes (suc n) i name ≡ find_node_from nodes n (suc i) name
    later other = rw (other, find_node_from) refl

abbrev node_inode : (ℕ → DevNode) → Option ℕ → Option ℕ
node_inode nodes none = none
node_inode nodes (some i) = (nodes i).inode

lookup_lem :
    (s : DevfsState) (name : List ℕ)
    → devfs_lookup s name ≡ node_inode s.nodes (find_node_from s.nodes s.node_count 0 name)
unfolding devfs_lookup find_node
lookup_lem s name = refl

module _ (s : DevfsState) (node : DevNode) (p : ℕ) (name : List ℕ) where
  grown : ℕ → DevNode
  grown = update s.nodes s.node_count (record node { inode = some p })

  devfs_lookup-grown :
      devfs_lookup (add_node s node p) name
      ≡ node_inode grown (find_node_from grown (s.node_count + 1) 0 name)
  unfolding add_node grown
  devfs_lookup-grown = lookup_lem (add_node s node p) name

  find_grown :
      find_node_from grown (s.node_count + 1) 0 name
      ≡ (elim (find_node_from s.nodes s.node_count 0 name) [
        | some j ↦ some j
        | none ↦ if same_text node.name name then some s.node_count else none
      ])
  unfolding grown
  find_grown =
      ap (λ n. find_node_from grown n 0 name) one_more
      ∙ find_node_from-snoc s.nodes s.node_count 0 s.node_count (record node { inode = some p })
          name (omega arith)
    where
      one_more : s.node_count + 1 ≡ suc s.node_count
      one_more = omega arith

  devfs_lookup-add_node :
      devfs_lookup (add_node s node p) name ≡ (elim (find_node_from s.nodes s.node_count 0 name) [
        | some j ↦ devfs_lookup s name
        | none ↦ if same_text node.name name then some p else none
      ])
  unfolding grown
  devfs_lookup-add_node =
      devfs_lookup-grown
      ∙ ap (node_inode grown) find_grown
      ∙ (elim (Option-cases (find_node_from s.nodes s.node_count 0 name)) [
        | inl missing ↦ rw missing (elim (Bool-cases (same_text node.name name)) [
          | inl same ↦ rw same (ground arith)
          | inr other ↦ rw other refl
        ])
        | inr (j, found) ↦
            rw found (kept j found ∙ sym (lookup_lem s name ∙ ap (node_inode s.nodes) found))
      ])
    where
      kept :
          (j : ℕ)
          → find_node_from s.nodes s.node_count 0 name ≡ some j
          → (grown j).inode ≡ (s.nodes j).inode
      kept j found = ground (arith, find_node_from-lt s.nodes s.node_count 0 j name found)

new_name :
    (old : DevNode) (name : List ℕ) (kind major minor mode : ℕ)
    → length name ≤ 63
    → (new_node old name kind major minor mode).name ≡ name
unfolding new_node
new_name old name kind major minor mode short = copy_text-short 63 name short

new_or_old :
    (s : DevfsState) (p : ℕ) (name other : List ℕ)
    → find_node s name ≡ none
    → (elim (find_node_from s.nodes s.node_count 0 other) [
      | some j ↦ devfs_lookup s other
      | none ↦ if same_text name other then some p else none
    ])
      ≡ (if same_text name other then some p else devfs_lookup s other)
unfolding find_node
new_or_old s p name other missing =
    elim (Option-cases (find_node_from s.nodes s.node_count 0 other)) [
      | inl absent ↦ rw absent (
          ap (λ o. if same_text name other then some p else o)
            (sym (lookup_lem s other ∙ ap (node_inode s.nodes) absent)))
      | inr (j, found) ↦ rw found (elim (Bool-cases (same_text name other)) [
        | inl same ↦ absurd (differ j found ((same_text_iff name other).0 same))
        | inr apart ↦ rw apart refl
      ])
    ]
  where
    differ : (j : ℕ) → find_node_from s.nodes s.node_count 0 other ≡ some j → name ≢ other
    differ j found e = cc (ap (find_node_from s.nodes s.node_count 0) e, missing, found)

-- Where there are fewer than 64 devices, none of them with the name, which has at most 63 characters, and `kmalloc` gives
-- `p`: registering the device returns 0, and looking up any name gives afterwards `p` for the name
-- registered, and for another what it gave before.
pub devfs_lookup-register_device :
    (s : DevfsState) (p : ℕ) (name other : List ℕ) (kind major minor mode : ℕ)
    → s.node_count < max_dev_nodes
    → find_node s name ≡ none
    → length name ≤ 63
    → ((register_device s (some p) name kind major minor mode).0 ≡ pos 0)
      × (devfs_lookup (register_device s (some p) name kind major minor mode).1 other
          ≡ (if same_text name other then some p else devfs_lookup s other))
unfolding register_device
devfs_lookup-register_device s p name other kind major minor mode room missing short =
    rw (not_full, missing)
      (
        refl,
        devfs_lookup-add_node s (new_node (s.nodes s.node_count) name kind major minor mode) p other
            ∙ ap
                (λ n. elim (find_node_from s.nodes s.node_count 0 other) [
                  | some j ↦ devfs_lookup s other
                  | none ↦ if same_text n other then some p else none
                ])
                (new_name (s.nodes s.node_count) name kind major minor mode short)
            ∙ new_or_old s p name other missing,
      )
  where
    not_full : leb max_dev_nodes s.node_count ≡ false
    not_full = ground (arith, room)
