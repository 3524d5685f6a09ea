-- ===== src/Block/Tests.antt =====
-- Devices of src/kernel/block_device.c on the disk of its self test.
use asas_os.Common.{
  ℕ, zero, suc, ◌-◌, ◌+◌, ◌≤◌, ◌<◌, ◌≡◌, ◌≢◌, ◌⊎◌, inl, inr, ◌==◌, Bool-cases, refl, true, false,
  none, some, [], ◌∷◌, arith, replicate, get_or,
}
use asas_os.Block.Flag
use asas_os.Block.Device.{
  Device, driver, no_device, no_telemetry, max_count, has_flag, device_at, register,
  register_partition, request_in_bounds, retry_budget,
}
use asas_os.Block.Cache.{no_entry, System, entry_at, cache_find}
use asas_os.Block.Transfer.{
  Reader, refuse, read_device, ops_read, block_device_read, block_device_write,
}
use asas_os.Block.Bounds.{
  IsInBounds, IsTable, IsRegistered, refused_lem, register_partition-IsTable,
}
use asas_os.Block.Coherence.{Agrees, Coherent}
use asas_os.Block.Fetching.{Stays, Fetched, stretch}
use asas_os.Block.Reading.{read_device-Stays}
use asas_os.Block.Answering.{read_device-exact}
use asas_os.Block.Flush.{block_device_flush_barrier, block_device_flush_barrier-cache_find}
use asas_os.Block.Disk.{
  SelfTestDisk, self_test_ops, block_of, self_test_disk_bounds, self_test_read,
  self_test_read-Fetched,
}

-- Four blocks of 512 bytes, of which the model keeps the first byte.
abbrev disk : Device
disk = record no_device {
  logical_block_size = 512;
  physical_block_size = 512;
  block_count = 4;
  flags = Flag.removable;
  ops = driver true true true;
}

abbrev medium : SelfTestDisk
medium = record {
  storage = (10 ∷ []) ∷ (11 ∷ []) ∷ (12 ∷ []) ∷ (13 ∷ []) ∷ [];
  block_size = 512;
  block_count = 4;
  fail_reads = 0;
  fail_writes = 0;
  removed = false;
  flushes = 0;
}

-- The disk is registered, and block 2 is cached.
abbrev start : System SelfTestDisk
start = record {
  table = record {
    devices = disk ∷ replicate 31 no_device;
    telemetry = replicate max_count no_telemetry;
    device_count = 1;
  };
  cache =
      record { valid = true; device_id = 0; lba = 2; block_size = 512; content = 12 ∷ [] }
      ∷ replicate 15 no_entry;
  next_cache_slot = 1;
  world = medium;
}

blank-Agrees : (n k : ℕ) → Agrees disk block_of medium (get_or (replicate n no_entry) k no_entry)
blank-Agrees zero k v i b = absurd (ground arith)
blank-Agrees (suc n) zero v i b = absurd (ground arith)
blank-Agrees (suc n) (suc k) v i b = blank-Agrees n k v i b

start-Agrees : (slot : ℕ) → Agrees disk block_of medium (entry_at start slot)
start-Agrees zero v i b = refl
start-Agrees (suc slot) v i b = blank-Agrees 15 slot v i b

start-Coherent : Coherent disk block_of start
start-Coherent = record { size = refl; agrees = start-Agrees }

abbrev disk_reader : Reader SelfTestDisk
disk_reader = ops_read self_test_ops 33

disk_reader-Fetched :
    (lba : ℕ) (s : System SelfTestDisk) → Fetched disk block_of s lba (disk_reader disk lba 1 s)
disk_reader-Fetched lba s = self_test_read-Fetched disk 32 lba s refl

read_device-Stays_example :
    Stays disk block_of start (read_device disk_reader disk 1 2 start).1
    × (((read_device disk_reader disk 1 2 start).0 ≡ none)
        ⊎ ((read_device disk_reader disk 1 2 start).0 ≡ some (stretch block_of medium 1 2)))
read_device-Stays_example =
    read_device-Stays disk block_of disk_reader disk_reader-Fetched 1 2 start start-Coherent

-- The disk, which fails the next two reads.
abbrev flaky : System SelfTestDisk
flaky = record start { world = record medium { fail_reads = 2 } }

-- At most `n` more reads of the blocks of the disk fail.
abbrev Left : ℕ → SelfTestDisk → Type 0
Left n w = (w.fail_reads ≤ n) × (w.removed ≡ false) × (w.block_count ≡ 4)

disk_reader-keeps :
    (n lba : ℕ) (s : System SelfTestDisk)
    → Left n s.world
    → Left n (disk_reader disk lba 1 s).1.world
unfolding ops_read self_test_read
disk_reader-keeps n lba s l = elim (Bool-cases (self_test_disk_bounds s.world lba 1)) [
  | inr b ↦ rw (b, ops_read) l
  | inl b ↦ elim (Bool-cases (s.world.fail_reads == 0)) [
    | inl f ↦ rw (b, f, ops_read) l
    | inr f ↦ rw (b, f, ops_read) (omega (arith, l.0), l.1, l.2)
  ]
]

disk_reader-answers :
    (n lba : ℕ) (s : System SelfTestDisk)
    → 1 ≤ lba
    → lba < 1 + 2
    → Left n s.world
    → ((disk_reader disk lba 1 s).0 ≢ none)
      ⊎ ((m : ℕ) × (m < n) × Left m (disk_reader disk lba 1 s).1.world)
unfolding ops_read self_test_read self_test_disk_bounds
disk_reader-answers n lba s lo hi (few, here, four) =
    let b : self_test_disk_bounds s.world lba 1 ≡ true = ground (arith, here, four) in
    elim (Bool-cases (s.world.fail_reads == 0)) [
      | inl f ↦ inl (λ q. absurd (ground (arith, rw (b, f, ops_read) at q)))
      | inr f ↦
          inr (s.world.fail_reads - 1, ground arith, rw (b, f, ops_read) (omega arith, here, four))
    ]

read_device-exact_example :
    (read_device disk_reader disk 1 2 flaky).0 ≡ some (stretch block_of flaky.world 1 2)
unfolding retry_budget
read_device-exact_example =
    read_device-exact disk block_of disk_reader disk_reader-Fetched Left disk_reader-keeps 1 2
      disk_reader-answers flaky (record { size = refl; agrees = start-Agrees }) (omega arith)
      (omega arith) (omega arith, omega arith, inr (omega arith)) refl (omega arith, refl, refl)

block_device_flush_barrier-cache_find_example :
    (cache_find disk 2 (block_device_flush_barrier self_test_ops disk start).1 ≡ none)
    × ((p : ℕ)
        → disk.parent ≡ some p
        → cache_find
            (device_at start.table p)
            2
            (block_device_flush_barrier self_test_ops disk start).1
          ≡ none)
block_device_flush_barrier-cache_find_example =
    block_device_flush_barrier-cache_find self_test_ops disk 2 start

start-IsTable : IsTable start.table
start-IsTable = record { size = refl; count_in = omega arith; registered = start-IsRegistered }
  where
    start-IsRegistered : (i : ℕ) → i < 1 → IsRegistered start.table i
    start-IsRegistered zero h = record {
      own_id = refl;
      small = (omega arith, omega arith);
      inside = λ p q. absurd (ground arith);
    }
    start-IsRegistered (suc i) h = absurd (omega arith)

register_partition-IsTable_example :
    IsTable (register start.table disk).1
    × IsTable (register_partition start.table 0 1 2 (112 ∷ []) 0).1
register_partition-IsTable_example =
    register_partition-IsTable start.table disk 0 1 2 (112 ∷ []) 0 start-IsTable refl (omega arith)

refused_lem_example :
    ((IsInBounds disk 4 1 × (request_in_bounds disk 4 1 ≡ true))
      ⊎ ((¬ IsInBounds disk 4 1)
          × (block_device_read self_test_ops disk 4 1 start ≡ (none, refuse disk start))
          × (block_device_write self_test_ops disk 4 1 [] start ≡ (false, refuse disk start))))
    × ((has_flag disk Flag.read_only ≡ false)
        ⊎ (block_device_write self_test_ops disk 4 1 [] start ≡ (false, refuse disk start)))
    × ((refuse disk start).world ≡ start.world)
    × ((refuse disk start).cache ≡ start.cache)
refused_lem_example = refused_lem self_test_ops disk 4 1 [] start (omega arith) (omega arith)
