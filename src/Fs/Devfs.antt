-- ===== src/Fs/Devfs.antt =====
-- The device file system of fs/devfs.c: `DevfsState` is `devfs_state` and the inodes at their addresses. What `kmalloc` gives
-- is an argument, `none` for NULL.
pub mod Register
mod Tests
use Prim.Native.Nat.{bit_or}
use minix_rv.Prelude.{
  ℕ, zero, suc, ◌+◌, ◌-◌, ◌%◌, Bool, true, false, ◌||◌, Option, none, some, ℤ, pos, negsuc, List,
  [], ◌∷◌, ltb, leb, ◌==◌, if◌then◌else◌,
}
use minix_rv.Fs.Base.{
  Inode, Dirent, dirent_size, s_ifdir, dir_mode, u8_mod, update, same_text, copy_text,
}

abbrev pub max_dev_nodes : ℕ
max_dev_nodes = 64

abbrev pub type_char : ℕ
type_char = 1

abbrev pub s_ifchr : ℕ
s_ifchr = 0x2000

abbrev pub s_ifblk : ℕ
s_ifblk = 0x6000

pub record DevNode : Type 0 where
  pub name : List ℕ
  pub kind : ℕ
  pub major : ℕ
  pub minor : ℕ
  pub mode : ℕ
  pub inode : Option ℕ

pub record DevfsState : Type 0 where
  pub nodes : ℕ → DevNode
  pub node_count : ℕ
  pub root_inode : Option ℕ
  pub inodes : ℕ → Inode

-- The first of `n` nodes from the `i`th on that has the name.
unfoldable pub find_node_from : (ℕ → DevNode) → ℕ → ℕ → List ℕ → Option ℕ
find_node_from nodes zero i name = none
find_node_from nodes (suc n) i name =
    if same_text (nodes i).name name then some i else find_node_from nodes n (suc i) name

unfoldable pub find_node : DevfsState → List ℕ → Option ℕ
unfolding find_node_from
find_node s name = find_node_from s.nodes s.node_count 0 name

unfoldable pub devfs_mount : Option ℕ → DevfsState → ℤ × DevfsState
devfs_mount none s = (negsuc 0, record s { node_count = 0; root_inode = none })
devfs_mount (some p) s = (
  pos 0,
  record s {
    node_count = 0;
    root_inode = some p;
    inodes = update s.inodes p (record {
      ino = 1;
      mode = bit_or s_ifdir dir_mode;
      nlink = 2;
      uid = 0;
      gid = 0;
      size = 0;
      fs_private = none;
      parent = none;
    });
  },
)

unfoldable pub devfs_unmount : DevfsState → ℤ × DevfsState
devfs_unmount s = (pos 0, record s { root_inode = none })

-- The inode of the first of `n` nodes from the `i`th on that has the number.
unfoldable pub devfs_read_inode_from : DevfsState → ℕ → ℕ → ℕ → Option ℕ
devfs_read_inode_from s zero i ino = none
devfs_read_inode_from s (suc n) i ino =
    let rest = devfs_read_inode_from s n (suc i) ino in
    elim (s.nodes i).inode [
      | none ↦ rest
      | some p ↦ if (s.inodes p).ino == ino then some p else rest
    ]

unfoldable pub devfs_read_inode : DevfsState → ℕ → Option ℕ
unfolding devfs_read_inode_from
devfs_read_inode s ino =
    if ino == 1 then s.root_inode else devfs_read_inode_from s s.node_count 0 ino

unfoldable pub devfs_lookup : DevfsState → List ℕ → Option ℕ
unfolding find_node
devfs_lookup s name = elim (find_node s name) [ none ↦ none | some i ↦ (s.nodes i).inode ]

-- The entry of a node with its inode.
unfoldable pub entry_of : DevNode → Inode → Dirent
entry_of node inode = record {
  ino = inode.ino;
  reclen = dirent_size;
  kind = (if node.kind == type_char then s_ifchr else s_ifblk) % u8_mod;
  name = copy_text 255 node.name;
}

-- `count` entries at most, of `n` nodes from the `i`th on. A node without an inode is a NULL access, and ends them.
unfoldable pub devfs_readdir_from : DevfsState → ℕ → ℕ → ℕ → List Dirent
unfolding entry_of
devfs_readdir_from s zero i count = []
devfs_readdir_from s (suc n) i zero = []
devfs_readdir_from s (suc n) i (suc count) =
    let rest = devfs_readdir_from s n (suc i) count in
    elim (s.nodes i).inode [ none ↦ [] | some p ↦ entry_of (s.nodes i) (s.inodes p) ∷ rest ]

unfoldable pub devfs_readdir : DevfsState → ℕ → List Dirent
unfolding devfs_readdir_from
devfs_readdir s count = devfs_readdir_from s s.node_count 0 count

-- The node written, but for its inode.
unfoldable pub new_node : DevNode → List ℕ → ℕ → ℕ → ℕ → ℕ → DevNode
new_node old name kind major minor mode = record old {
  name = copy_text 63 name;
  kind = kind;
  major = major;
  minor = minor;
  mode = mode;
}

-- The new node `node` gets the inode at `p`.
unfoldable pub add_node : DevfsState → DevNode → ℕ → DevfsState
add_node s node p = record s {
  nodes = update s.nodes s.node_count (record node { inode = some p });
  node_count = s.node_count + 1;
  inodes = update s.inodes p (record {
    ino = s.node_count + 2;
    mode = bit_or (if node.kind == type_char then s_ifchr else s_ifblk) node.mode;
    nlink = 1;
    uid = 0;
    gid = 0;
    size = 0;
    fs_private = some s.node_count;
    parent = s.root_inode;
  });
}

unfoldable pub register_device : DevfsState → Option ℕ → List ℕ → ℕ → ℕ → ℕ → ℕ → ℤ × DevfsState
unfolding find_node new_node add_node
register_device s inode name kind major minor mode =
    if leb max_dev_nodes s.node_count then (negsuc 0, s) else elim (find_node s name) [
      | some i ↦ (negsuc 0, s)
      | none ↦
          let node = new_node (s.nodes s.node_count) name kind major minor mode in
          elim inode [
            | none ↦ (negsuc 0, record s { nodes = update s.nodes s.node_count node })
            | some p ↦ (pos 0, add_node s node p)
          ]
    ]

-- `n` nodes from the `i`th on, each replaced by the next.
unfoldable pub shift_nodes : ℕ → ℕ → (ℕ → DevNode) → ℕ → DevNode
shift_nodes zero i nodes = nodes
shift_nodes (suc n) i nodes = shift_nodes n (suc i) (update nodes i (nodes (suc i)))

unfoldable pub unregister_device : DevfsState → List ℕ → ℤ × DevfsState
unfolding find_node shift_nodes
unregister_device s name = elim (find_node s name) [
  | none ↦ (negsuc 0, s)
  | some i ↦ (
    pos 0,
    record s {
      nodes = shift_nodes (s.node_count - 1 - i) i s.nodes;
      node_count = s.node_count - 1;
    },
  )
]
