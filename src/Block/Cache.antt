-- ===== src/Block/Cache.antt =====
-- The cache of src/kernel/block_device.c. The contents of a block are a list of bytes; what stands behind
-- the devices, their drivers and media, is a world `W` that the drivers read and change.
use asas_os.Common.{
  ℕ, ◌+◌, ◌%◌, Bool, true, false, ◌&&◌, ◌||◌, Option, none, some, List, [], ◌∷◌, ltb, ◌==◌,
  if◌then◌else◌, get_or, set, map,
}
use asas_os.Common.Words.{word32}
use asas_os.Block.Flag
use asas_os.Block.Device.{Device, Telemetry, Table, no_telemetry, has_flag, clear_table}

abbrev pub cache_entry_count : ℕ
cache_entry_count = 16

abbrev pub cache_max_block_size : ℕ
cache_max_block_size = 4096

abbrev pub Content : Type 0
Content = List ℕ

-- `BLOCK_CACHE_ENTRY`
pub record Entry : Type 0 where
  pub valid : Bool
  pub device_id : ℕ
  pub lba : ℕ
  pub block_size : ℕ
  pub content : Content

abbrev pub no_entry : Entry
no_entry = record { valid = false; device_id = 0; lba = 0; block_size = 0; content = [] }

-- The static variables of the file, and the world.
pub record System (W : Type 0) : Type 0 where
  pub table : Table
  pub cache : List Entry
  pub next_cache_slot : ℕ
  pub world : W

-- The test of `cache_find` at one entry.
abbrev pub matches : Device → ℕ → Entry → Bool
matches d lba e =
    (e.valid && e.device_id == d.id) && (e.lba == lba && e.block_size == d.logical_block_size)

-- The loop of `cache_find` over the entries, the first at an index.
unfoldable pub find_entry : Device → ℕ → ℕ → List Entry → Option ℕ
find_entry d lba index [] = none
find_entry d lba index (e ∷ rest) =
    if matches d lba e then some index else find_entry d lba (index + 1) rest

-- `cache_entries[index].valid = 0` for the entries of a device.
unfoldable pub invalidate : Device → List Entry → List Entry
invalidate d [] = []
invalidate d (e ∷ rest) =
    (if e.valid && e.device_id == d.id then record e { valid = false } else e) ∷ invalidate d rest

module _ {W : Type 0} where
  -- `block_device_initialize`
  unfoldable pub initialize : System W → System W
  initialize s = record s {
    table = clear_table s.table;
    next_cache_slot = 0;
    cache = map {A = Entry} {B = Entry} (λ e. record e { valid = false }) s.cache;
  }

  unfoldable pub cache_find : Device → ℕ → System W → Option ℕ
  cache_find d lba s = if has_flag d Flag.no_cache then none else find_entry d lba 0 s.cache

  abbrev pub entry_at : System W → ℕ → Entry
  entry_at s slot = get_or s.cache slot no_entry

  abbrev pub next_slot : System W → ℕ
  next_slot s = s.next_cache_slot % cache_entry_count

  -- The next entry is taken over for a block; its old contents stay until they are written.
  abbrev pub claim : Device → ℕ → System W → System W
  claim d lba s = record s {
    next_cache_slot = word32 (s.next_cache_slot + 1);
    cache = set s.cache (next_slot s) (record (entry_at s (next_slot s)) {
      valid = true;
      device_id = d.id;
      lba = lba;
      block_size = d.logical_block_size;
    });
  }

  unfoldable pub cache_allocate : Device → ℕ → System W → Option ℕ × System W
  cache_allocate d lba s =
      if has_flag d Flag.no_cache || ltb cache_max_block_size d.logical_block_size
      then (none, s)
      else (some (next_slot s), claim d lba s)

  -- `entry->data[…] = …` for a whole block
  abbrev pub write_entry : System W → ℕ → Content → System W
  write_entry s slot content = record s {
    cache = set s.cache slot (record (entry_at s slot) { content = content });
  }

  -- `ahead->valid = 0`
  abbrev pub drop_entry : System W → ℕ → System W
  drop_entry s slot = record s {
    cache = set s.cache slot (record (entry_at s slot) { valid = false });
  }

  unfoldable pub cache_store : Device → ℕ → Content → System W → System W
  cache_store d lba content s = elim (cache_find d lba s) [
    | some slot ↦ write_entry s slot content
    | none ↦
        let (found, s') = cache_allocate d lba s in
        elim found [ none ↦ s' | some slot ↦ write_entry s' slot content ]
  ]

  unfoldable pub cache_invalidate_device : Device → System W → System W
  cache_invalidate_device d s = record s { cache = invalidate d s.cache }

  -- A change of the telemetry of a device.
  abbrev pub tell : Device → (Telemetry → Telemetry) → System W → System W
  tell d change s = record s {
    table = record (s.table) {
      telemetry =
          set (s.table.telemetry) d.id (change (get_or (s.table.telemetry) d.id no_telemetry));
    };
  }
