-- ===== src/Lib.antt =====
-- MinixRV64: a small kernel for RISC-V. The development models its file system layer, its processes and
-- scheduler, its page allocator and page tables, its UART and block device drivers, and its memory and string routines.
--
-- Str is lib/string.c. A pointer is the list of the bytes up to the end of its object, and an access
-- past the end is `none`.
--
-- Fs.Base holds what include/minix/vfs.h shares: inodes, files, directory entries.
--
-- Fs.Ramfs is fs/ramfs.c, with the state, the search and mounting in Fs.Ramfs.Table. `State` is the
-- static `ramfs_state`: arrays are functions from indices,
-- pointers into them are indices, and the operations of `ramfs_ops` are functions on the state.
-- `write` and `read` use `memcpy` of Str, so an access outside a buffer is a `none` result. The
-- 32-bit sizes and 64-bit positions wrap as they do in C.
--
-- Fs.Devfs is fs/devfs.c, on the nodes of devices and the inodes at the addresses that `kmalloc` gave.
--
-- Fs.Vfs is fs/vfs.c. Types has the interface `FsOps` to a file system and the static tables
-- (`World`), over any type of memory; Mounts has the tables' operations, Path the path lookup, and
-- Calls the calls on files and directories. Fs.Ramfs.Ops fills the interface with ramfs.
--
-- Proc.Pid is the PID bitmap of kernel/fork.c, Proc.Cache its cache of tasks, and Proc.Sched the run
-- queue of kernel/sched_new.c with its two priority arrays (Proc.Sched.Arrays); Proc.Word has the operations on the bits
-- of a word that they use. A task is a number, the fields of all tasks are in the state, and a
-- circular list of include/minix/sched.h is the list of its members.
--
-- Proc.Process is what kernel/fork.c, kernel/exit.c and kernel/sched_new.c share, over these three: `Kernel` is
-- their static variables with all tasks, where `init_task` is number 64. Proc.Copy is what a new
-- process gets and Proc.Fork the making of processes, with
-- Failed about a fork that fails and Child about one that succeeds; Proc.Exit is kernel/exit.c, with Reparent about the
-- children that are given away, Zombie and Exited about the task that exits, Release about what is given back
-- and Wait about the parent. What the other tasks do while `do_wait` sleeps is an argument.
--
-- Mm.Buddy is arch/riscv64/mm/page_alloc.c: `Buddy` is its static variables and the array of pages, where a
-- `struct page *` is an index. Links and Unlink have what the pointers of a free list stand
-- for, Effect what `list_add` and `list_del` change, Cover in how many blocks a page is, Invariant what makes
-- the free lists lists of blocks (`IsBuddy`), Areas and Blocks that both keep it, Pair that a block and its
-- buddy are the halves of one block, and Alloc, Free and Init the three operations. Mm.PageTable is
-- arch/riscv64/mm/pgtable.c over a memory of words and any allocator of pages. Mm.Vmalloc is
-- arch/riscv64/mm/vmalloc.c over these page tables: `Vmalloc` is its static variables, with the list of areas
-- as the list of their indices, and `Machine` the page allocator with what reads and writes of virtual
-- addresses do; Gaps is about the search in the list, Reserve about a new area, Alloc about the calls. Mm.Slab is
-- arch/riscv64/mm/slab.c over any page allocator, with Kmalloc and Verify for the calls
-- that look for a cache: Chain is about the free list of a new slab, Alloc about
-- objects taken and given back, Sizes about `kmalloc` after `kmem_init`. Drv.Uart is drivers/char/uart.c
-- over a device that is given by what a read and a write of a register do, and Drv.Block is
-- drivers/block/blockdev.c over the operations of the drivers.
--
-- An `int` that is assigned a wider number, as the exit code is, keeps its lower 32 bits (`to_int` of
-- Prelude.Int), and the `int` counters of the cache of blocks wrap as on the machine (`incr`). Where such a counter
-- would give a negative index, the write in front of the array is left out.
--
-- Loops are structural recursion, or have fuel: the loop of `vfs_lookup_path` for every character of the
-- path, that of `ffs_zero` for the 64 bits of a word, that of `page_init` for every page, since each round
-- adds a page or more, that of `free_pages` for the orders up to 11, and those that map a region
-- for as many pages as their argument says, and the loops of the UART that
-- empty the receiver for a number of rounds that is an argument, with as many as there are characters enough.
--
-- Not modelled: output on the console, which no result depends on; the fields of an inode that are
-- never read (times, blocks, the hash chain); `vfs_close`, `vfs_rmdir`, which always fails, and
-- `vfs_create`, which always fails too; locks, registers and the switch of stacks; the
-- program loader, and the other drivers and file systems.
pub mod Prelude
pub mod Str
pub mod Fs
pub mod Proc
pub mod Mm
pub mod Drv
