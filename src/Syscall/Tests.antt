-- ===== src/Syscall/Tests.antt =====
-- Calls of src/kernel/syscall.c, with a file system whose functions add their arguments.
use asas_os.Common.{ℕ, ◌+◌, ◌-◌, ◌^◌, ◌≡◌, true, List, arith}
use asas_os.Syscall.{Call, halted, syscall_dispatch, is_user_pointer}
use asas_os.Syscall.Pointers.{
  InUserSpace, AllSafe, calls, is_user_pointer-wraps, syscall_dispatch-AllSafe,
}

abbrev vfs_open : ℕ → ℕ
vfs_open path = path + 1

abbrev vfs_read : ℕ → ℕ → ℕ → ℕ
vfs_read file buffer size = file + size

-- A size of 2 ^ 64 - 4096 at the first page wraps to 0.
is_user_pointer-wraps_example :
    (is_user_pointer 0x1000 (2 ^ 64 - 0x1000) ≡ true) × ¬ InUserSpace 0x1000 (2 ^ 64 - 0x1000)
is_user_pointer-wraps_example =
    is_user_pointer-wraps 0x1000 (2 ^ 64 - 0x1000) (omega arith) (omega arith) (omega arith)
      (omega arith)

syscall_dispatch-AllSafe_example :
    AllSafe (calls (syscall_dispatch vfs_open vfs_read 6 3 0x2000 64))
    × ((l : List Call)
        → syscall_dispatch vfs_open vfs_read 6 3 0x2000 64 ≡ halted l
        → ◌≡◌ {A = ℕ} 6 4)
syscall_dispatch-AllSafe_example = syscall_dispatch-AllSafe vfs_open vfs_read 6 3 0x2000 64
