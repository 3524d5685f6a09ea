-- ===== src/Syscall/Pointers.antt =====
-- Which pointers the dispatcher of src/kernel/syscall.c lets through.
use asas_os.Common.{ℕ, ◌+◌, ◌^◌, ◌≤◌, ◌<◌, ◌≡◌, ◌↔◌, ◌⊎◌, true, false, List, [], ◌∷◌, arith, ◌==◌}
use asas_os.Syscall.{
  user_end, is_user_pointer, Call, log_user, log_info, open_file, read_file, Outcome, returned,
  halted, minus_one, syscall_dispatch,
}

-- The range of `size` bytes at `address` lies in user space, above the first page.
abbrev pub InUserSpace : ℕ → ℕ → Type 0
InUserSpace address size = (0x1000 ≤ address) × (address < user_end) × (address + size ≤ user_end)

-- Where the end of the range does not wrap, the test accepts exactly the ranges in user space.
pub is_user_pointer_iff :
    (address size : ℕ)
    → address + size < 2 ^ 64
    → (is_user_pointer address size ≡ true) ↔ InUserSpace address size
unfolding is_user_pointer
is_user_pointer_iff address size h = (λ e. ground arith, λ e. ground arith)

-- Where the end of the range wraps, the test accepts every start in user space: the size is then at
-- least 2 ^ 64 less the address, so the range is not in user space.
pub is_user_pointer-wraps :
    (address size : ℕ)
    → 0x1000 ≤ address
    → address < user_end
    → size < 2 ^ 64
    → 2 ^ 64 ≤ address + size
    → (is_user_pointer address size ≡ true) × ¬ InUserSpace address size
unfolding is_user_pointer
is_user_pointer-wraps address size h lt small wraps = (ground arith, λ r. omega arith)

-- What the dispatcher may hand on: a pointer that starts in user space.
abbrev pub IsSafe : Call → Type 0
IsSafe (log_user text) = InUserSpace text 0
IsSafe log_info = Unit
IsSafe (open_file path) = InUserSpace path 1
IsSafe (read_file handle buffer capacity) =
    InUserSpace buffer 0 × (is_user_pointer buffer capacity ≡ true)

abbrev pub AllSafe : List Call → Type 0
AllSafe [] = Unit
AllSafe (c ∷ l) = IsSafe c × AllSafe l

abbrev pub calls : Outcome → List Call
calls (returned v l) = l
calls (halted l) = l

-- For any arguments the dispatcher hands on only pointers that start in user space, and halts only
-- for number 4.
pub syscall_dispatch-AllSafe :
    (vfs_open : ℕ → ℕ) (vfs_read : ℕ → ℕ → ℕ → ℕ) (number a0 a1 a2 : ℕ)
    → AllSafe (calls (syscall_dispatch vfs_open vfs_read number a0 a1 a2))
      × ((l : List Call)
          → syscall_dispatch vfs_open vfs_read number a0 a1 a2 ≡ halted l
          → number ≡ 4)
unfolding syscall_dispatch is_user_pointer
syscall_dispatch-AllSafe vfs_open vfs_read number a0 a1 a2 = (ground arith, λ l h. ground arith)

-- A call that is none of the six, or that is number 1 without its magic argument, returns -1 and
-- hands nothing on.
pub syscall_dispatch-unknown :
    (vfs_open : ℕ → ℕ) (vfs_read : ℕ → ℕ → ℕ → ℕ) (number a0 a1 a2 : ℕ)
    → (6 < number) ⊎ ((number ≡ 0) ⊎ ((number ≡ 1) × ((a0 == 0x41534153) ≡ false)))
    → syscall_dispatch vfs_open vfs_read number a0 a1 a2 ≡ returned minus_one []
unfolding syscall_dispatch
syscall_dispatch-unknown vfs_open vfs_read number a0 a1 a2 h = ground arith
