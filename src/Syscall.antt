-- ===== src/Syscall.antt =====
-- The system call dispatcher of src/kernel/syscall.c. What it calls in the logger and the VFS is
-- recorded in order; the values that `vfs_open` and `vfs_read` return are arguments.
pub mod Pointers
mod Tests
use asas_os.Common.{
  ℕ, ◌+◌, ◌-◌, ◌^◌, Bool, true, false, not, ◌&&◌, ◌||◌, List, [], ◌∷◌, ltb, leb, ◌==◌,
  if◌then◌else◌,
}
use asas_os.Common.Words.{word}

abbrev pub user_end : ℕ
user_end = 0x0000800000000000

pub is_user_pointer : ℕ → ℕ → Bool
is_user_pointer address size =
    if ltb address 0x1000
    then false
    else if leb user_end address
    then false
    else if ltb 0 size && ltb user_end (word (address + size))
    then false
    else true

-- What the dispatcher hands on.
pub data Call : Type 0 where
  log_user : (text : ℕ) → Call
  log_info : Call
  open_file : (path : ℕ) → Call
  read_file : (handle buffer capacity : ℕ) → Call

-- `halted` stands for the loop around `hlt`, which never returns.
pub data Outcome : Type 0 where
  returned : ℕ → List Call → Outcome
  halted : List Call → Outcome

-- `(UINT64)-1`
abbrev pub minus_one : ℕ
minus_one = 2 ^ 64 - 1

-- `vfs_open` and `vfs_read` as the values that they return.
module _ (vfs_open : ℕ → ℕ) (vfs_read : ℕ → ℕ → ℕ → ℕ) where
  pub syscall_dispatch : ℕ → ℕ → ℕ → ℕ → Outcome
  syscall_dispatch number argument0 argument1 argument2 =
      if number == 1 && argument0 == 0x41534153
      then returned 1 (log_info ∷ [])
      else if number == 2
      then returned 1 []
      else if number == 3
      then (if not (is_user_pointer argument0 argument1)
          then returned minus_one []
          else returned argument1 (log_user argument0 ∷ []))
      else if number == 4
      then halted (log_info ∷ [])
      else if number == 5
      then (if not (is_user_pointer argument0 1)
          then returned 0 []
          else returned (vfs_open argument0) (open_file argument0 ∷ []))
      else if number == 6
      then (if not (is_user_pointer argument1 argument2)
          then returned 0 []
          else returned (vfs_read argument0 argument1 argument2)
              (read_file argument0 argument1 argument2 ∷ []))
      else returned minus_one []
