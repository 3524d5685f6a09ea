-- ===== src/Block/Device.antt =====
-- Devices of src/kernel/block_device.c: the table, registration and bounds. A pointer to a device is its
-- index in the table; a NUL-terminated name is the list of its characters.
use Prim.Native.Nat.{bit_and, bit_or}
use asas_os.Common.{
  ℕ, zero, suc, ◌+◌, ◌-◌, ◌%◌, ◌^◌, Bool, true, false, not, ◌&&◌, ◌||◌, Option, none, some, List,
  [], ◌∷◌, ltb, leb, ◌==◌, if◌then◌else◌, get_or, set, replicate, map,
}
use asas_os.Block.Flag

abbrev pub max_count : ℕ
max_count = 32

-- `BLOCK_DEVICE_CAPABILITY_MASK`
abbrev pub capability_mask : ℕ
capability_mask = 0x17

-- `ASAS_BLOCK_DEVICE_OPS`: none, those of a partition, or a driver's, of which some may be null.
pub data Ops : Type 0 where
  absent : Ops
  partition_ops : Ops
  driver : (reads writes flushes : Bool) → Ops

-- `ASAS_BLOCK_DEVICE`
pub record Device : Type 0 where
  pub id : ℕ
  pub name : List ℕ
  pub logical_block_size : ℕ
  pub physical_block_size : ℕ
  pub block_count : ℕ
  pub flags : ℕ
  pub target : ℕ
  pub lun : ℕ
  pub start_lba : ℕ
  pub parent : Option ℕ
  pub ops : Ops
  pub driver_context : ℕ

-- `ASAS_BLOCK_DEVICE_TELEMETRY`
pub record Telemetry : Type 0 where
  pub read_ops : ℕ
  pub write_ops : ℕ
  pub flush_ops : ℕ
  pub blocks_read : ℕ
  pub blocks_written : ℕ
  pub cache_hits : ℕ
  pub cache_misses : ℕ
  pub read_ahead_ops : ℕ
  pub retries : ℕ
  pub errors : ℕ
  pub out_of_bounds : ℕ

abbrev pub no_telemetry : Telemetry
no_telemetry = record {
  read_ops = 0;
  write_ops = 0;
  flush_ops = 0;
  blocks_read = 0;
  blocks_written = 0;
  cache_hits = 0;
  cache_misses = 0;
  read_ahead_ops = 0;
  retries = 0;
  errors = 0;
  out_of_bounds = 0;
}

-- The array `devices` with its counters.
pub record Table : Type 0 where
  pub devices : List Device
  pub telemetry : List Telemetry
  pub device_count : ℕ

abbrev pub has_flag : Device → ℕ → Bool
has_flag d flag = not (bit_and d.flags flag == 0)

-- `(n & (n - 1U)) != 0` on `UINT32`
abbrev pub is_no_power : ℕ → Bool
is_no_power n = not (bit_and n ((n + 2 ^ 32 - 1) % 2 ^ 32) == 0)

-- `copy_name`: at most 15 characters.
unfoldable pub copy_name : ℕ → List ℕ → List ℕ
copy_name zero source = []
copy_name (suc room) [] = []
copy_name (suc room) (c ∷ source) = c ∷ copy_name room source

abbrev pub name_room : ℕ
name_room = 15

-- The loop of `block_device_initialize` over the devices: their identity is cleared.
unfoldable pub clear_table : Table → Table
clear_table t = record {
  devices = map {A = Device} {B = Device} (λ d. record d { id = 0; name = [] }) t.devices;
  telemetry = replicate max_count no_telemetry;
  device_count = 0;
}

-- The test by which `block_device_register` refuses a description.
unfoldable pub is_refused : Table → Device → Bool
is_refused t d =
    ((elim d.ops [ absent ↦ true | _ ↦ false ])
      || ltb d.logical_block_size 512
      || ltb 4096 d.logical_block_size
      || is_no_power d.logical_block_size)
    || (not (d.physical_block_size == 0)
        && (ltb d.physical_block_size d.logical_block_size || is_no_power d.physical_block_size))
    || leb max_count t.device_count

-- The index of the new device, or none. An optical device is read-only.
unfoldable pub register : Table → Device → Option ℕ × Table
register t description = if is_refused t description then (none, t) else (
  some t.device_count,
  record {
    devices = set t.devices t.device_count (record description {
      flags =
          if has_flag description Flag.optical
          then bit_or description.flags Flag.read_only
          else description.flags;
      id = t.device_count;
      name = copy_name name_room description.name;
    });
    telemetry = set t.telemetry t.device_count no_telemetry;
    device_count = t.device_count + 1;
  },
)

abbrev pub no_device : Device
no_device = record {
  id = 0;
  name = [];
  logical_block_size = 0;
  physical_block_size = 0;
  block_count = 0;
  flags = 0;
  target = 0;
  lun = 0;
  start_lba = 0;
  parent = none;
  ops = absent;
  driver_context = 0;
}

abbrev pub device_at : Table → ℕ → Device
device_at t index = get_or t.devices index no_device

-- The test by which `block_device_register_partition` refuses a range of the parent.
unfoldable pub is_outside : Device → ℕ → ℕ → Bool
is_outside parent start_lba block_count =
    block_count == 0
    || (not (parent.block_count == 0)
        && (leb parent.block_count start_lba || ltb (parent.block_count - start_lba) block_count))

unfoldable pub register_partition : Table → ℕ → ℕ → ℕ → List ℕ → ℕ → Option ℕ × Table
register_partition t parent start_lba block_count name flags =
    if is_outside (device_at t parent) start_lba block_count
    then (none, t)
    else register t (record {
      id = 0;
      name = copy_name name_room name;
      logical_block_size = (device_at t parent).logical_block_size;
      physical_block_size = (device_at t parent).physical_block_size;
      block_count = block_count;
      flags = bit_or (bit_or (device_at t parent).flags flags) Flag.partition;
      target = (device_at t parent).target;
      lun = (device_at t parent).lun;
      start_lba = start_lba;
      parent = some parent;
      ops = partition_ops;
      driver_context = 0;
    })

-- `names_equal`: past an end the NUL is compared.
unfoldable pub names_equal : List ℕ → List ℕ → Bool
names_equal [] [] = true
names_equal [] (_ ∷ _) = false
names_equal (_ ∷ _) [] = false
names_equal (x ∷ left) (y ∷ right) = if x == y then names_equal left right else false

-- The loop of `block_device_find`, with the rounds that are left.
unfoldable pub find_from : Table → ℕ → ℕ → List ℕ → Option ℕ
find_from t zero index name = none
find_from t (suc rounds) index name =
    let rest = find_from t rounds (index + 1) name in
    if names_equal (device_at t index).name name then some index else rest

unfoldable pub find : Table → List ℕ → Option ℕ
find t name = find_from t t.device_count 0 name

unfoldable pub get : Table → ℕ → Option ℕ
get t index = if ltb index t.device_count then some index else none

unfoldable pub request_in_bounds : Device → ℕ → ℕ → Bool
request_in_bounds d lba count =
    if count == 0
    then false
    else if ltb (2 ^ 64 - 1 - lba) (count - 1)
    then false
    else if d.block_count == 0
    then true
    else if leb d.block_count lba
    then false
    else leb count (d.block_count - lba)

unfoldable pub retry_budget : Device → ℕ
retry_budget d = if has_flag d Flag.hot_plug then 1 else if has_flag d Flag.removable then 3 else 2

-- The bits of a capability outside the mask are refused.
unfoldable pub has_capability : Device → ℕ → Bool
has_capability d capability =
    if capability == 0 || not (bit_or capability capability_mask == capability_mask)
    then false
    else bit_and d.flags capability == capability
