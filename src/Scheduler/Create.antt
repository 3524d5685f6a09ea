-- ===== src/Scheduler/Create.antt =====
-- New threads of src/kernel/scheduler.c: the slot, and the stack that `context_switch` will pop.
use Prim.Native.Nat.{max}
use asas_os.Common.{
  ℕ, zero, suc, ◌+◌, ◌-◌, ◌*◌, ◌≤◌, ◌<◌, ◌≡◌, ◌≢◌, refl, sym, ◌∙◌, ap, Bool, true, false, List,
  replicate, ◌==◌, arith, if◌then◌else◌, get_or, set, length, length-set, get_or-set_self,
  get_or-set_ne, Bool-cases, inl, inr, ℕ_discrete, ◌⊎◌,
}
use asas_os.Scheduler.{
  Scheduler, Thread, no_thread, max_threads, thread_stack_size, is_active, initialize, store,
  push_zeros, stack_top, start_thread, create_from, create_thread,
}
use asas_os.Scheduler.Yield.{IsValid}

-- `n` pushes of 0 move the pointer down by 8 each, clear those words and write no other.
record Pushed (n stack : ℕ) (memory : ℕ → ℕ) (out : ℕ × (ℕ → ℕ)) : Type 0 where
  pointer : out.0 + 8 * n ≡ stack
  zeros : (k : ℕ) → k < n → out.1 (out.0 + 8 * k) ≡ 0
  kept : (a : ℕ) → (a < out.0) ⊎ (stack ≤ a) → out.1 a ≡ memory a

push_zeros-Pushed :
    (n stack : ℕ) (memory : ℕ → ℕ)
    → 8 * n ≤ stack
    → Pushed n stack memory (push_zeros n stack memory)
unfolding push_zeros
push_zeros-Pushed zero stack memory h = record {
  pointer = omega arith;
  zeros = λ k lt. absurd (omega arith);
  kept = λ a out. refl;
}
push_zeros-Pushed (suc n) stack memory h =
    let r = push_zeros-Pushed n (stack - 8) (store memory (stack - 8) 0) (omega arith) in
    record {
      pointer = omega (arith, r.pointer);
      zeros = λ k lt. elim (ℕ_discrete k n) [
        | yes e ↦
            ap (push_zeros n (stack - 8) (store memory (stack - 8) 0)).1 {y = stack - 8}
              (omega (arith, r.pointer))
            ∙ (r.kept (stack - 8) (inr (omega arith)) ∙ ground arith)
        | no ne ↦ r.zeros k (omega arith)
      ];
      kept = λ a out. elim out [
        | inl below ↦ r.kept a (inl below) ∙ ground (arith, r.pointer)
        | inr above ↦ r.kept a (inr (omega arith)) ∙ ground arith
      ];
    }

get_or-replicate : (n : ℕ) (t : Thread) (i : ℕ) → get_or (replicate n t) i t ≡ t
get_or-replicate zero t i = refl
get_or-replicate (suc n) t zero = refl
get_or-replicate (suc n) t (suc i) = get_or-replicate n t i

-- A scheduler that has been initialised is valid, with one thread.
pub initialize-IsValid : (s : Scheduler) → IsValid (initialize s)
unfolding initialize
initialize-IsValid s = record {
  size = refl;
  some_thread = omega arith;
  count_in = omega arith;
  current_in = omega arith;
  covered = idle;
}
  where
    idle : (i : ℕ) → 1 ≤ i → is_active (initialize s) i ≡ false
    idle zero h = absurd (omega arith)
    idle (suc i) h = ap (λ (t : Thread). t.active) (get_or-replicate 15 no_thread i)

is_active-set :
    (l : List Thread) (i : ℕ) (t : Thread) (j : ℕ)
    → i < length l
    → (get_or (set l i t) j no_thread).active
      ≡ (if i == j then t.active else (get_or l j no_thread).active)
is_active-set l i t j h = elim (ℕ_discrete i j) [
  | yes e ↦
      ap (λ k. (get_or (set l i t) k no_thread).active) (sym e)
      ∙ (ap (λ (u : Thread). u.active) (get_or-set_self l i t no_thread h) ∙ ground arith)
  | no ne ↦ ap (λ (u : Thread). u.active) (get_or-set_ne l i j t no_thread ne) ∙ ground arith
]

module _ (thread_stacks thread_bootstrap : ℕ) where
  -- What starting a thread in slot `i` does: the thread is active with its entry, no other thread
  -- changes, neither does the current thread or whether preemption is on, `thread_count` grows where
  -- it must to cover the slot, and its stack holds the bootstrap address above eight zero registers, written inside
  -- its own 16384 bytes.
  pub record Started (s : Scheduler) (i entry : ℕ) (s' : Scheduler) : Type 0 where
    pub thread :
        get_or s'.threads i no_thread
        ≡ record { stack_pointer = stack_top thread_stacks i - 72; entry = entry; active = true }
    pub others : (j : ℕ) → i ≢ j → get_or s'.threads j no_thread ≡ get_or s.threads j no_thread
    pub same_current : s'.current_thread ≡ s.current_thread
    pub same_preemption : s'.preemption_enabled ≡ s.preemption_enabled
    pub count : s'.thread_count ≡ max s.thread_count (i + 1)
    pub bootstrap : s'.memory (stack_top thread_stacks i - 8) ≡ thread_bootstrap
    pub registers : (k : ℕ) → k < 8 → s'.memory (stack_top thread_stacks i - 72 + 8 * k) ≡ 0
    pub outside :
        (a : ℕ)
        → (a < thread_stacks + i * thread_stack_size) ⊎ (stack_top thread_stacks i ≤ a)
        → s'.memory a ≡ s.memory a

  start_thread-Started :
      (s : Scheduler) (i entry : ℕ)
      → i < length s.threads
      → Started s i entry (start_thread thread_stacks thread_bootstrap s i entry)
  unfolding start_thread
  start_thread-Started s i entry h =
      let r = push_zeros-Pushed 8 (top - 8) below (omega arith) in
      let at : pushed.0 ≡ top - 72 = omega (arith, r.pointer) in
      record {
        thread =
            get_or-set_self s.threads i _ no_thread h
            ∙ ap (λ p. record { stack_pointer = p; entry = entry; active = true }) at;
        others = λ j ne. get_or-set_ne s.threads i j _ no_thread ne;
        same_current = refl;
        same_preemption = refl;
        count = ground arith;
        bootstrap = r.kept (top - 8) (inr (omega arith)) ∙ ground arith;
        registers = λ k lt. ap (λ p. pushed.1 (p + 8 * k)) (sym at) ∙ r.zeros k lt;
        outside = λ a out. elim out [
          | inl low ↦ r.kept a (inl (omega (arith, at))) ∙ ground arith
          | inr high ↦ r.kept a (inr (omega arith)) ∙ ground arith
        ];
      }
    where
      top : ℕ
      top = stack_top thread_stacks i

      below : ℕ → ℕ
      below = store s.memory (top - 8) thread_bootstrap

      pushed : ℕ × (ℕ → ℕ)
      pushed = push_zeros 8 (top - 8) below

  start_thread-IsValid :
      (s : Scheduler) (i entry : ℕ)
      → IsValid s
      → i < max_threads
      → IsValid (start_thread thread_stacks thread_bootstrap s i entry)
  unfolding start_thread
  start_thread-IsValid s i entry v h = record {
    size = length-set s.threads i _ ∙ v.size;
    some_thread = ground (arith, v.some_thread);
    count_in = ground (arith, v.count_in);
    current_in = ground (arith, v.current_in);
    covered = λ j hj. ground (
      arith,
      is_active-set s.threads i
          (record {
            stack_pointer =
                (push_zeros 8 (stack_top thread_stacks i - 8)
                  (store s.memory (stack_top thread_stacks i - 8) thread_bootstrap)).0;
            entry = entry;
            active = true;
          })
          j,
      v.covered j,
    );
  }

  -- What a call of `scheduler_create_thread` does: it starts the thread in the lowest inactive slot
  -- but the first, or it finds all of them active and changes nothing.
  abbrev pub Creates : Scheduler → ℕ → ℕ → Bool → Scheduler → Type 0
  Creates s from entry true s' =
      (i : ℕ) × (from ≤ i)
      × (i < max_threads)
      × (is_active s i ≡ false)
      × ((j : ℕ) → from ≤ j → j < i → is_active s j ≡ true)
      × Started s i entry s'
      × IsValid s'
  Creates s from entry false s' =
      (s' ≡ s) × ((j : ℕ) → from ≤ j → j < max_threads → is_active s j ≡ true)

  create_from-Creates :
      (rounds from entry : ℕ) (s : Scheduler)
      → IsValid s
      → from + rounds ≡ max_threads
      → Creates s from entry
          (create_from thread_stacks thread_bootstrap rounds s from entry).0
          (create_from thread_stacks thread_bootstrap rounds s from entry).1
  unfolding create_from
  create_from-Creates zero from entry s v e = (refl, λ j lo hi. absurd (omega arith))
  create_from-Creates (suc rounds) from entry s v e = elim (Bool-cases (is_active s from)) [
    | inl busy ↦
        rw busy (extend busy _ _ (create_from-Creates rounds (from + 1) entry s v (omega arith)))
    | inr idle ↦ rw idle (
      from,
      omega arith,
      omega arith,
      idle,
      λ j lo hi. absurd (omega arith),
      start_thread-Started s from entry (omega arith),
      start_thread-IsValid s from entry v (omega arith),
    )
  ]
    where
      lowest :
          is_active s from ≡ true
          → (j : ℕ) → from ≤ j
          → (from + 1 ≤ j → is_active s j ≡ true)
          → is_active s j ≡ true
      lowest busy j l later = elim (ℕ_discrete j from) [
        | yes q ↦ ap (is_active s) q ∙ busy
        | no q ↦ later (omega arith)
      ]

      extend :
          is_active s from ≡ true
          → (b : Bool) (s' : Scheduler) → Creates s (from + 1) entry b s'
          → Creates s from entry b s'
      extend busy true s' (i, lo, hi, idle, lower, done, v') =
          (i, omega arith, hi, idle, λ j l h. lowest busy j l (λ m. lower j m h), done, v')
      extend busy false s' (same, all) = (same, λ j l h. lowest busy j l (λ m. all j m h))

  -- On a valid scheduler `scheduler_create_thread` fails exactly where all 15 slots are active.
  -- Otherwise it starts the thread in the lowest inactive slot, with a stack that `context_switch`
  -- pops into the bootstrap, and grows `thread_count` where it must to cover the slot. It changes no
  -- other thread, no memory outside that stack, neither the current thread nor whether preemption is
  -- on, and keeps the scheduler valid.
  pub create_thread_lem :
      (s : Scheduler) (entry : ℕ)
      → IsValid s
      → Creates s 1 entry
          (create_thread thread_stacks thread_bootstrap s entry).0
          (create_thread thread_stacks thread_bootstrap s entry).1
  unfolding create_thread
  create_thread_lem s entry v = create_from-Creates 15 1 entry s v refl
