-- ===== src/Scheduler/Tests.antt =====
-- A scheduler of src/kernel/scheduler.c with two threads.
use asas_os.Common.{ℕ, zero, suc, ◌≤◌, ◌≡◌, refl, true, false, [], ◌∷◌, arith, replicate, get_or}
use asas_os.Scheduler.{Thread, Scheduler, no_thread, is_active, initialize, create_thread, yield}
use asas_os.Scheduler.Yield.{IsValid, Yields, yield_lem}
use asas_os.Scheduler.Create.{initialize-IsValid, Creates, create_thread_lem}

abbrev boot : Scheduler
boot = record {
  threads = [];
  current_thread = 3;
  thread_count = 0;
  preemption_enabled = true;
  memory = λ a. 0;
}

abbrev ready : Thread
ready = record { stack_pointer = 0x9000; entry = 0x1234; active = true }

abbrev pair : Scheduler
pair = record boot {
  threads = ready ∷ ready ∷ replicate 14 no_thread;
  thread_count = 2;
  current_thread = 1;
}

idle : (n i : ℕ) → (get_or (replicate n no_thread) i no_thread).active ≡ false
idle zero i = refl
idle (suc n) zero = refl
idle (suc n) (suc i) = idle n i

pair-covered : (i : ℕ) → 2 ≤ i → is_active pair i ≡ false
pair-covered zero h = absurd (omega arith)
pair-covered (suc zero) h = absurd (omega arith)
pair-covered (suc (suc i)) h = idle 14 i

pair-IsValid : IsValid pair
pair-IsValid = record {
  size = refl;
  some_thread = omega arith;
  count_in = omega arith;
  current_in = omega arith;
  covered = pair-covered;
}

create_thread_lem_example :
    Creates 0x100000 0x4000
      (initialize boot)
      1
      0x1234
      (create_thread 0x100000 0x4000 (initialize boot) 0x1234).0
      (create_thread 0x100000 0x4000 (initialize boot) 0x1234).1
create_thread_lem_example =
    create_thread_lem 0x100000 0x4000 (initialize boot) 0x1234 (initialize-IsValid boot)

yield_lem_example : Yields pair (yield pair).0 (yield pair).1
yield_lem_example = yield_lem pair pair-IsValid
