-- ===== src/Process/Tests.antt =====
-- A table of src/kernel/process.c, over address spaces that never run out.
use asas_os.Common.{ℕ, ◌+◌, ◌≤◌, refl, some, List, [], ◌∷◌, replicate}
use asas_os.Process.{
  unused, Process, AddressSpaces, Processes, initialize, process_create, max_processes,
}
use asas_os.Process.Slots.{IsValid}
use asas_os.Process.Runs.{Call, create, kill, run, run-IsValid, initialize-IsValid}

-- The allocator counts the spaces that exist.
abbrev counted : AddressSpaces ℕ ℕ
counted = record {
  no_space = 0;
  create_space = λ n. (some (n + 1), n + 1);
  destroy_space = λ space n. (0, n);
}

abbrev blank : Process ℕ
blank = record { pid = 5; state = unused; address_space = 0; user_entry = 0; user_stack = 0 }

abbrev before : Processes ℕ ℕ
before = record { processes = replicate max_processes blank; next_pid = 9; allocator = 0 }

abbrev start : Processes ℕ ℕ
start = initialize counted before

start-IsValid : IsValid 0 start
start-IsValid = initialize-IsValid counted before refl

abbrev one : Processes ℕ ℕ
one = (process_create counted start).1

abbrev script : List Call
script = create ∷ kill 1 ∷ create ∷ kill 1 ∷ []

run-IsValid_example :
    IsValid (0 + (run counted script start).0) (run counted script start).1
    × (0 + (run counted script start).0 ≤ max_processes)
run-IsValid_example = run-IsValid counted script 0 start start-IsValid
