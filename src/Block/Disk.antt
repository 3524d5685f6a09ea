-- ===== src/Block/Disk.antt =====
-- The disk that the self test of src/kernel/block_device.c registers, as a driver. Its storage is the
-- list of the contents of its blocks.
use asas_os.Common.{
  ℕ, zero, suc, ◌+◌, ◌-◌, ◌≡◌, refl, Bool, true, false, not, ◌||◌, Option, none, some, List, [],
  ◌∷◌, leb, ◌==◌, inl, inr, if◌then◌else◌, arith, Bool-cases, get_or, set, sym,
}
use mathlib.Core.Option.{some_inj}
use asas_os.Common.Words.{word32}
use asas_os.Block.Device.{Device, driver}
use asas_os.Block.Cache.{Content, System}
use asas_os.Block.Transfer.{Hardware, ops_read}
use asas_os.Block.Fetching.{Fetched}

-- `SELF_TEST_DISK`
pub record SelfTestDisk : Type 0 where
  pub storage : List Content
  pub block_size : ℕ
  pub block_count : ℕ
  pub fail_reads : ℕ
  pub fail_writes : ℕ
  pub removed : Bool
  pub flushes : ℕ

unfoldable pub self_test_disk_bounds : SelfTestDisk → ℕ → ℕ → Bool
self_test_disk_bounds disk lba count =
    if disk.removed || count == 0
    then false
    else if leb disk.block_count lba
    then false
    else leb count (disk.block_count - lba)

abbrev pub block_of : SelfTestDisk → ℕ → Content
block_of disk lba = get_or disk.storage lba []

-- The loop of `self_test_read`, with the blocks that are left.
unfoldable pub blocks_from : SelfTestDisk → ℕ → ℕ → List Content
blocks_from disk lba zero = []
blocks_from disk lba (suc count) = block_of disk lba ∷ blocks_from disk (lba + 1) count

unfoldable pub self_test_read : Device → ℕ → ℕ → SelfTestDisk → Option (List Content) × SelfTestDisk
self_test_read d lba count disk =
    if not (self_test_disk_bounds disk lba count)
    then (none, disk)
    else if not (disk.fail_reads == 0)
    then (none, record disk { fail_reads = disk.fail_reads - 1 })
    else (some (blocks_from disk lba count), disk)

-- The loop of `self_test_write`, with the blocks that are left.
unfoldable pub put_blocks : List Content → ℕ → List Content → List Content
put_blocks storage lba [] = storage
put_blocks storage lba (content ∷ rest) = put_blocks (set storage lba content) (lba + 1) rest

unfoldable pub self_test_write : Device → ℕ → ℕ → List Content → SelfTestDisk → Bool × SelfTestDisk
self_test_write d lba count blocks disk =
    if not (self_test_disk_bounds disk lba count)
    then (false, disk)
    else if not (disk.fail_writes == 0)
    then (false, record disk { fail_writes = disk.fail_writes - 1 })
    else (true, record disk { storage = put_blocks disk.storage lba blocks })

unfoldable pub self_test_flush : Device → SelfTestDisk → Bool × SelfTestDisk
self_test_flush d disk =
    if disk.removed
    then (false, disk)
    else (true, record disk { flushes = word32 (disk.flushes + 1) })

-- `self_test_ops`
abbrev pub self_test_ops : Hardware SelfTestDisk
self_test_ops = record {
  read_blocks = self_test_read;
  write_blocks = self_test_write;
  flush = self_test_flush;
}

-- A successful read of one block gives what the storage holds; also a failing one changes neither the
-- storage nor the cache.
pub self_test_read-Fetched :
    (d : Device) (depth lba : ℕ) (s : System SelfTestDisk)
    → d.ops ≡ driver true true true
    → Fetched d block_of s lba (ops_read self_test_ops (suc depth) d lba 1 s)
unfolding ops_read self_test_read blocks_from
self_test_read-Fetched d depth lba s o = elim (Bool-cases (self_test_disk_bounds s.world lba 1)) [
  | inl b ↦ elim (Bool-cases (s.world.fail_reads == 0)) [
    | inl f ↦
        rw (o, ops_read, b, f)
          record { kept = refl; same = λ i. refl; exact = λ blocks q. sym (some_inj.0 q) }
    | inr f ↦
        rw (o, ops_read, b, f)
          record { kept = refl; same = λ i. refl; exact = λ blocks q. absurd (ground arith) }
  ]
  | inr b ↦
      rw (o, ops_read, b)
        record { kept = refl; same = λ i. refl; exact = λ blocks q. absurd (ground arith) }
]
