-- ===== src/Aslr.antt =====
-- The user stack addresses of src/kernel/aslr.c.
mod Tests
use Prim.Native.Nat.{bit_xor}
use asas_os.Common.{
  ℕ, ◌+◌, ◌-◌, ◌*◌, ◌/◌, ◌%◌, ◌^◌, ◌≤◌, ◌<◌, ◌≡◌, ◌≢◌, Bool, true, false, not, ◌||◌, ltb, leb, ◌==◌,
  if◌then◌else◌, arith,
}
use asas_os.Common.Words.{word}

abbrev pub default_seed : ℕ
default_seed = 0x4153415341534C52

abbrev pub user_stack_base : ℕ
user_stack_base = 0x0000600000400000

abbrev pub user_stack_stride : ℕ
user_stack_stride = 0x20000

abbrev pub user_stack_slots : ℕ
user_stack_slots = 256

-- `aslr_next`: the new state, which is also the value returned.
pub next : ℕ → ℕ
next state = word (word (state * 6364136223846793005) + 1442695040888963407)

-- The state that `aslr_initialize` sets.
pub initialize : ℕ → ℕ
initialize seed =
    let state = bit_xor seed default_seed in if state == 0 then default_seed else state

-- The address and the new state.
pub user_stack_address : ℕ → ℕ × ℕ
user_stack_address state =
    let state' = next state in
    (user_stack_base + state' / 2 ^ 12 % user_stack_slots * user_stack_stride, state')

-- `aslr_self_test`: the result and the new state.
pub self_test : ℕ → Bool × ℕ
self_test state =
    let (first, state') = user_stack_address state in
    let (second, state'') = user_stack_address state' in
    let stop = user_stack_base + user_stack_stride * user_stack_slots in
    if (((ltb first user_stack_base || ltb second user_stack_base)
          || (leb stop first || leb stop second))
        || (not (first % 0x1000 == 0) || not (second % 0x1000 == 0)))
      || first == second
    then (false, state'')
    else (true, state'')

-- From every state the address starts a page in one of the 256 slots of 128 KiB above the base, so a
-- stack of one page at it stays below the end of user space.
pub user_stack_address_bounds :
    (state : ℕ)
    → let a = (user_stack_address state).0 in
      (user_stack_base ≤ a)
      × (a + 4096 ≤ user_stack_base + user_stack_stride * user_stack_slots)
      × ((a - user_stack_base) % user_stack_stride ≡ 0)
      × (a % 4096 ≡ 0)
      × (a + 4096 < 2 ^ 47)
unfolding user_stack_address
user_stack_address_bounds state = omega arith

-- The self test fails exactly where two draws in a row fall into the same slot.
pub self_test_iff :
    (state : ℕ)
    → (self_test state).0
      ≡ not (
          (next state) / 2 ^ 12 % user_stack_slots
          == (next (next state)) / 2 ^ 12 % user_stack_slots)
unfolding self_test user_stack_address
self_test_iff state = ground arith

pub initialize-ne-zero : (seed : ℕ) → initialize seed ≢ 0
unfolding initialize
initialize-ne-zero seed = ground arith
