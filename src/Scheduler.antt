-- ===== src/Scheduler.antt =====
-- The scheduler of src/kernel/scheduler.c. Each call runs whole between `scheduler_lock` and
-- `scheduler_unlock`, and the lock is left out. The entry of a thread is the address of its function;
-- `context_switch` is what the caller does with the pair that `yield` returns.
pub mod Yield
pub mod Create
mod Tests
use asas_os.Common.{
  ℕ, zero, suc, ◌+◌, ◌-◌, ◌*◌, ◌%◌, Bool, true, false, not, Option, none, some, List, [], ◌∷◌, leb,
  ◌==◌, if◌then◌else◌, get_or, set, replicate,
}
use asas_os.Common.Words.{sub_word}

abbrev pub max_threads : ℕ
max_threads = 16

abbrev pub thread_stack_size : ℕ
thread_stack_size = 16384

-- `ASAS_THREAD`
pub record Thread : Type 0 where
  pub stack_pointer : ℕ
  pub entry : ℕ
  pub active : Bool

abbrev pub no_thread : Thread
no_thread = record { stack_pointer = 0; entry = 0; active = false }

-- The static variables, with the words of memory that the stacks lie in, by address.
pub record Scheduler : Type 0 where
  pub threads : List Thread
  pub current_thread : ℕ
  pub thread_count : ℕ
  pub preemption_enabled : Bool
  pub memory : ℕ → ℕ

abbrev pub is_active : Scheduler → ℕ → Bool
is_active s index = (get_or s.threads index no_thread).active

pub initialize : Scheduler → Scheduler
initialize s = record s {
  threads = set (replicate max_threads no_thread) 0 (record no_thread { active = true });
  current_thread = 0;
  thread_count = 1;
  preemption_enabled = false;
}

-- `*--stack = value`
abbrev pub store : (ℕ → ℕ) → ℕ → ℕ → ℕ → ℕ
store memory address value a = if a == address then value else memory a

-- The loop that pushes `n` zero registers.
pub push_zeros : ℕ → ℕ → (ℕ → ℕ) → ℕ × (ℕ → ℕ)
push_zeros zero stack memory = (stack, memory)
push_zeros (suc n) stack memory = push_zeros n (stack - 8) (store memory (stack - 8) 0)

-- The end of the stack of a thread, from the address of `thread_stacks`.
abbrev pub stack_top : ℕ → ℕ → ℕ
stack_top thread_stacks index = thread_stacks + (index + 1) * thread_stack_size

-- The addresses that the linker and the compiler choose: of `thread_stacks`, and of the function
-- `thread_bootstrap`.
module _ (thread_stacks thread_bootstrap : ℕ) where
  pub start_thread : Scheduler → ℕ → ℕ → Scheduler
  start_thread s index entry =
      let (stack, memory) =
        push_zeros 8 (stack_top thread_stacks index - 8)
          (store s.memory (stack_top thread_stacks index - 8) thread_bootstrap) in
      record s {
        threads =
            set s.threads index (record { stack_pointer = stack; entry = entry; active = true });
        thread_count = if leb s.thread_count index then index + 1 else s.thread_count;
        memory = memory;
      }

  -- The loop over the threads, with the rounds that are left.
  pub create_from : ℕ → Scheduler → ℕ → ℕ → Bool × Scheduler
  create_from zero s index entry = (false, s)
  create_from (suc rounds) s index entry =
      let rest = create_from rounds s (index + 1) entry in
      if not (is_active s index) then (true, start_thread s index entry) else rest

  pub create_thread : Scheduler → ℕ → Bool × Scheduler
  create_thread s entry = create_from (max_threads - 1) s 1 entry

-- The search of `scheduler_yield`, with the rounds that are left: the next active thread.
pub next_active : Scheduler → ℕ → ℕ → Option ℕ
next_active s zero next = none
next_active s (suc rounds) next =
    let next' = (next + 1) % s.thread_count in
    let rest = next_active s rounds next' in if is_active s next' then some next' else rest

-- The threads to switch between, where there is a switch.
pub yield : Scheduler → Option (ℕ × ℕ) × Scheduler
yield s = elim (next_active s s.thread_count s.current_thread) [
  | none ↦ (none, s)
  | some next ↦
      if next == s.current_thread
      then (none, s)
      else (some (s.current_thread, next), record s { current_thread = next })
]

-- `threads[current_thread].active = 0` in `thread_bootstrap`, after the entry has returned.
pub finish : Scheduler → Scheduler
finish s = record s {
  threads =
      set s.threads s.current_thread
        (record (get_or s.threads s.current_thread no_thread) { active = false });
}

pub on_timer_tick : Scheduler → Option (ℕ × ℕ) × Scheduler
on_timer_tick s = if s.preemption_enabled then yield s else (none, s)

pub enable_preemption : Scheduler → Scheduler
enable_preemption s = record s { preemption_enabled = true }

pub disable_preemption : Scheduler → Scheduler
disable_preemption s = record s { preemption_enabled = false }
