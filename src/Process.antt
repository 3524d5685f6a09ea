-- ===== src/Process.antt =====
-- The process table of src/kernel/process.c. The address spaces are those of src/kernel/paging.c,
-- taken through `AddressSpaces`; a pointer to a process is its index in the table.
pub mod Slots
pub mod Runs
mod Tests
use asas_os.Common.{
  ℕ, zero, suc, ◌+◌, Bool, true, false, not, ◌&&◌, Option, none, some, List, [], ◌∷◌, ◌==◌,
  if◌then◌else◌, map,
}
use asas_os.Common.Words.{word32}

abbrev pub max_processes : ℕ
max_processes = 16

-- `ASAS_PROCESS_STATE`
pub data State : Type 0 where
  unused : State
  ready : State
  running : State
  blocked : State
  exited : State

abbrev pub is_unused : State → Bool
is_unused s = elim s [ unused ↦ true | _ ↦ false ]

abbrev pub is_active : State → Bool
is_active s = elim s [ unused ↦ false | exited ↦ false | _ ↦ true ]

-- `ASAS_PROCESS`
pub record Process (Space : Type 0) : Type 0 where
  pub pid : ℕ
  pub state : State
  pub address_space : Space
  pub user_entry : ℕ
  pub user_stack : ℕ

-- What the table takes of paging.c, with the state `A` of the frame allocator: the cleared address
-- space, `paging_create_address_space` and `paging_destroy_address_space`.
pub record AddressSpaces (Space A : Type 0) : Type 0 where
  pub no_space : Space
  pub create_space : A → Option Space × A
  pub destroy_space : Space → A → Space × A

-- The static variables, and the allocator.
pub record Processes (Space A : Type 0) : Type 0 where
  pub processes : List (Process Space)
  pub next_pid : ℕ
  pub allocator : A

module _ {Space A : Type 0} (spaces : AddressSpaces Space A) where
  -- `process_initialize`
  unfoldable pub initialize : Processes Space A → Processes Space A
  initialize s = record s {
    processes =
        map {A = Process Space} {B = Process Space}
          (λ p. record {
            pid = 0;
            state = unused;
            address_space = spaces.no_space;
            user_entry = 0;
            user_stack = 0;
          })
          s.processes;
    next_pid = 1;
  }

  -- The loop of `process_create` over the entries, the first at an index: the index of the new
  -- process, the entries and the allocator.
  unfoldable pub create_from :
      ℕ → ℕ → List (Process Space) → A → Option ℕ × List (Process Space) × A
  create_from pid index [] a = (none, [], a)
  create_from pid index (p ∷ rest) a =
      let (got, a') = spaces.create_space a in
      let (found, rest', a'') = create_from pid (index + 1) rest a in
      if is_unused p.state
      then elim got [
        | none ↦ (none, p ∷ rest, a')
        | some space ↦
            (some index, record p { pid = pid; state = ready; address_space = space } ∷ rest, a')
      ]
      else (found, p ∷ rest', a'')

  unfoldable pub process_create : Processes Space A → Option ℕ × Processes Space A
  process_create s =
      let (found, entries, a) = create_from s.next_pid 0 s.processes s.allocator in
      elim found [
        | none ↦ (none, record s { processes = entries; allocator = a })
        | some index ↦ (
          some index,
          record s { processes = entries; allocator = a; next_pid = word32 (s.next_pid + 1) },
        )
      ]

  -- The loop of `process_kill`: whether the process was found, the entries and the allocator.
  unfoldable pub kill_from : ℕ → List (Process Space) → A → Bool × List (Process Space) × A
  kill_from pid [] a = (false, [], a)
  kill_from pid (p ∷ rest) a =
      let (space, a') = spaces.destroy_space p.address_space a in
      let (found, rest', a'') = kill_from pid rest a in
      if p.pid == pid && not (is_unused p.state)
      then (
        true,
        record p { address_space = space; state = exited; user_entry = 0; user_stack = 0 } ∷ rest,
        a',
      )
      else (found, p ∷ rest', a'')

  unfoldable pub process_kill : ℕ → Processes Space A → Bool × Processes Space A
  process_kill pid s =
      let (found, entries, a) = kill_from pid s.processes s.allocator in
      (found, record s { processes = entries; allocator = a })

  -- The loop of `process_active_count`.
  unfoldable pub active_count_from : List (Process Space) → ℕ
  active_count_from [] = 0
  active_count_from (p ∷ rest) =
      let count = active_count_from rest in if is_active p.state then suc count else count

  unfoldable pub process_active_count : Processes Space A → ℕ
  process_active_count s = active_count_from s.processes
