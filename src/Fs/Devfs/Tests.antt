-- ===== src/Fs/Devfs/Tests.antt =====
-- A device for the device file system of fs/devfs.c.
use minix_rv.Prelude.{◌≡◌, refl, none, some, pos, [], ◌∷◌, if◌then◌else◌, arith}
use minix_rv.Fs.Base.{same_text}
use minix_rv.Fs.Devfs.{DevfsState, find_node, devfs_lookup, register_device}
use minix_rv.Fs.Devfs.Register.{devfs_lookup-register_device}

-- No device.
abbrev no_devices : DevfsState
no_devices = record {
  nodes = λ i. record { name = []; kind = 0; major = 0; minor = 0; mode = 0; inode = none };
  node_count = 0;
  root_inode = some 1;
  inodes = λ p. record {
    ino = 1;
    mode = 0;
    nlink = 2;
    uid = 0;
    gid = 0;
    size = 0;
    fs_private = none;
    parent = none;
  };
}

devfs_lookup-register_device_example :
    ((register_device no_devices (some 2) (116 ∷ 121 ∷ []) 1 4 0 438).0 ≡ pos 0)
    × (devfs_lookup
          (register_device no_devices (some 2) (116 ∷ 121 ∷ []) 1 4 0 438).1
          (116 ∷ 121 ∷ [])
        ≡ (if same_text (116 ∷ 121 ∷ []) (116 ∷ 121 ∷ [])
            then some 2
            else devfs_lookup no_devices (116 ∷ 121 ∷ [])))
unfolding find_node
devfs_lookup-register_device_example =
    devfs_lookup-register_device no_devices 2 (116 ∷ 121 ∷ []) (116 ∷ 121 ∷ []) 1 4 0 438
      (omega arith) refl (omega arith)
