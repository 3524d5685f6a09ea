-- ===== src/Aslr/Tests.antt =====
-- Draws of src/kernel/aslr.c.
use asas_os.Common.{◌+◌, ◌-◌, ◌*◌, ◌%◌, ◌^◌, ◌≤◌, ◌<◌, ◌≡◌}
use asas_os.Aslr.{
  user_stack_address, user_stack_base, user_stack_stride, user_stack_slots,
  user_stack_address_bounds,
}

user_stack_address_bounds_example :
    let a = (user_stack_address 0x1234).0 in
    (user_stack_base ≤ a)
    × (a + 4096 ≤ user_stack_base + user_stack_stride * user_stack_slots)
    × ((a - user_stack_base) % user_stack_stride ≡ 0)
    × (a % 4096 ≡ 0)
    × (a + 4096 < 2 ^ 47)
user_stack_address_bounds_example = user_stack_address_bounds 0x1234
