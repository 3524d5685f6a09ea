-- ===== src/Lib.antt =====
-- The core of the kernel of asas-os: memory, messages, threads, processes, block devices, input,
-- file systems, users and system calls, each as a state with the operations of its C file.
--
-- Files and sources (paths from the root of the repository):
--   Heap       src/kernel/heap.c: the list of blocks, `kmalloc`, `kfree`, `heap_free_bytes`
--   Frames     src/kernel/memory.c, include/memory.h: frames of 4 KiB from the memory map of UEFI
--   Ipc        src/kernel/ipc.c, include/ipc.h: the queue of 32 messages
--   Scheduler  src/kernel/scheduler.c: 16 threads, their stacks, `scheduler_yield`, preemption
--   Process    src/kernel/process.c, include/process.h: the table of 16 processes
--   Block      src/kernel/block_device.c, include/block_device.h: devices and partitions (Device),
--              the cache (Cache), reads and writes (Transfer), flushes (Flush), the disk of the self
--              test (Disk); the proofs stand in Bounds, Coherence, Claims, Fetching, Reading and, for a
--              driver that fails no more often than is retried, in Answering
--   Partition  src/kernel/partition.c, include/partition.h: the tests on the entries of an MBR and of a
--              GPT (Gpt), the change of an MBR, names and checksums (Names)
--   Keyboard   src/kernel/keyboard.c: the ring of characters and the two paths of a scancode
--   Crash      src/kernel/crash.c: the log of the 16 latest records
--   Security   src/kernel/security.c, include/security.h: users, permissions, switches
--   Aslr       src/kernel/aslr.c: the generator and the address of the user stack
--   Syscall    src/kernel/syscall.c: the test on user pointers and the dispatcher
--   Filesystem src/kernel/filesystem.c, include/filesystem.h: drivers, the table of 16 mounts and the
--              references to them; the proofs stand in Slots, Mounting and References
--   Vfs        src/kernel/vfs.c, include/vfs.h: paths (Paths), the volumes and handles (State), files
--              by handle (Files) and by path (ByPath), mounting at a path (Volumes), the mount points
--              that are chosen (Automount), the mounts at start-up and the removal of a device
--              (Startup); the proofs stand in Disks, Resolve, Leads and ReadBack for what a path and a
--              handle lead to, in Choice for the chosen mount points, in Changes for what a change reaches,
--              in References, Lifetime, Mounts, Kept, Entering, Separate, Apart, Remount, Reset and
--              Removal for what each operation keeps, and in Reachable and Whole for any sequence
--   Common     Boolean tests, lists, words and texts that the parts share
--
-- How they interact: the dispatcher hands what passes its pointer test to the logger and to the
-- VFS; the process table takes its address spaces from paging through the record `AddressSpaces`,
-- as the block layer takes its drivers through `Hardware`; a partition hands its requests to the
-- device that it lies on. The VFS opens, reads and changes files through the mounts of Filesystem,
-- whose drivers and media are behind the record `Contexts`, on a world that is passed on; the table
-- of block devices is behind `Devices` there, and the file systems that are used where nothing is
-- mounted behind `Legacy`. A function keeps the name that it has in C, without the prefix of its
-- file where the module says it (`initialize`, `register`); a static variable is a field of the
-- state, a pointer into a table is an index, and a `UINT64` or `UINT32` is a natural number with
-- its wrap written out (`word`, `word32`).
--
-- Bounds and fuel: the loops that look for a slot of the message queue run for 32 rounds, and on a
-- valid queue they stop within these; the search for a mount point tries 9 numbers, one more than
-- there are volumes; the loop over the memory map runs once for each descriptor that is left; the
-- other loops are by recursion on their lists or on the rounds of the C loop. A request on a block
-- device goes through at most 33 devices, one more than the table holds.
--
-- Not modelled: the formats of the file systems, directory listings, and the registration of the
-- devices of the storage drivers; the scans of partition tables, virtual disks and the program
-- loader; paging, of which the process table takes an interface; the drivers, firmware tables and
-- start-up, which program hardware; the graphical interface, the shell and the console.
-- Log lines and the self tests of the scheduler, the process table, the block devices, the
-- partitions and the crash log are left out. So are the spin locks: the calls are taken one after
-- the other. Two calls at once may interleave in the source, as `filesystem_unmount` tests a mount
-- before it takes the lock of the mount, and `vfs_open` looks the file up and acquires its mount
-- outside `vfs_lock`; such races are not modelled. A driver of a file system may keep caches and a
-- last error when it reads; these are no part of the world, which a read leaves as it is. The buffer
-- of a read of blocks is a list, for requests below 4 GiB, where the place of a block in it does not
-- wrap.
pub mod Common
pub mod Heap
pub mod Frames
pub mod Ipc
pub mod Keyboard
pub mod Crash
pub mod Security
pub mod Aslr
pub mod Syscall
pub mod Scheduler
pub mod Process
pub mod Partition
pub mod Block
pub mod Filesystem
pub mod Vfs
