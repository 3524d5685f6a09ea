-- ===== src/Block/Transfer.antt =====
-- Reads, writes and flushes of src/kernel/block_device.c. A buffer is the list of the contents of its
-- blocks, for requests below 4 GiB: the source computes the place of a block in it in 32 bits. The drivers are given by `Hardware`; a partition hands a request to its parent, so the
-- operations of a device are defined on the depth of that chain.
use asas_os.Common.{
  ℕ, zero, suc, ◌+◌, ◌-◌, ◌^◌, Bool, true, false, not, ◌&&◌, ◌||◌, Option, none, some, List, [],
  ◌∷◌, ltb, ◌==◌, if◌then◌else◌,
}
use asas_os.Common.Words.{word}
use asas_os.Block.Flag
use asas_os.Block.Device.{
  Device, absent, partition_ops, driver, Telemetry, device_at, max_count, has_flag,
  request_in_bounds, retry_budget,
}
use asas_os.Block.Cache.{
  Content, System, entry_at, cache_find, cache_allocate, write_entry, drop_entry, cache_store, tell,
}

-- The functions of the drivers. A read gives the contents of `count` blocks, or fails.
pub record Hardware (W : Type 0) : Type 0 where
  pub read_blocks : Device → (lba count : ℕ) → W → Option (List Content) × W
  pub write_blocks : Device → (lba count : ℕ) → List Content → W → Bool × W
  pub flush : Device → W → Bool × W

abbrev pub Reader : Type 0 → Type 0
Reader W = Device → ℕ → ℕ → System W → Option (List Content) × System W

abbrev pub Writer : Type 0 → Type 0
Writer W = Device → ℕ → ℕ → List Content → System W → Bool × System W

abbrev pub count_retries : ℕ → Telemetry → Telemetry
count_retries n t = record t { retries = word (t.retries + n) }

abbrev pub count_failure : ℕ → Telemetry → Telemetry
count_failure n t = record t { retries = word (t.retries + n); errors = word (t.errors + 1) }

abbrev pub count_refused : Telemetry → Telemetry
count_refused t = record t { out_of_bounds = word (t.out_of_bounds + 1) }

abbrev pub can_read : Device → Bool
can_read d = elim d.ops [ absent ↦ false | partition_ops ↦ true | driver r _ _ ↦ r ]

abbrev pub can_write : Device → Bool
can_write d = elim d.ops [ absent ↦ false | partition_ops ↦ true | driver _ w _ ↦ w ]

-- The telemetry of a refused request.
abbrev pub refuse : {W : Type 0} → Device → System W → System W
refuse d s = if ltb d.id max_count then tell d count_refused s else s

-- With `device->ops->read_blocks` as an argument.
module _ {W : Type 0} (reader : Reader W) where
  -- The loop of `raw_read_with_retry`, with the rounds that are left.
  unfoldable pub raw_read_from :
      ℕ → ℕ → Device → ℕ → ℕ → System W → Option (List Content) × System W
  raw_read_from zero attempt d lba count s = (none, tell d (count_failure (retry_budget d)) s)
  raw_read_from (suc rounds) attempt d lba count s =
      let (got, s') = reader d lba count s in
      let again = raw_read_from rounds (attempt + 1) d lba count s' in
      elim got [
        | some blocks ↦
            (some blocks, if attempt == 0 then s' else tell d (count_retries attempt) s')
        | none ↦ again
      ]

  unfoldable pub raw_read_with_retry : Device → ℕ → ℕ → System W → Option (List Content) × System W
  raw_read_with_retry d lba count s = raw_read_from (suc (retry_budget d)) 0 d lba count s

  -- The read-ahead of the block `lba` into the cache.
  unfoldable pub read_ahead : Device → ℕ → System W → System W
  read_ahead d lba s =
      let (ahead, s') = cache_allocate d lba s in
      elim ahead [
        | none ↦ s'
        | some slot ↦
            let (got, s'') = raw_read_with_retry d lba 1 s' in
            elim got [
              | some (content ∷ _) ↦
                  tell d (λ t. record t { read_ahead_ops = word (t.read_ahead_ops + 1) })
                    (write_entry s'' slot content)
              | _ ↦ drop_entry s'' slot
            ]
      ]

  -- The test before the read-ahead, for the block behind `current`.
  abbrev pub wants_ahead : Device → ℕ → System W → Bool
  wants_ahead d current s =
      not (current == 2 ^ 64 - 1)
      && request_in_bounds d (current + 1) 1
      && elim (cache_find d (current + 1) s) [ none ↦ true | some _ ↦ false ]

  -- One block: from the cache, or from the device and into the cache.
  unfoldable pub read_block : Device → ℕ → System W → Option Content × System W
  read_block d current s = elim (cache_find d current s) [
    | some slot ↦ (
      some ((entry_at s slot).content),
      tell d (λ t. record t { cache_hits = word (t.cache_hits + 1) }) s,
    )
    | none ↦
        let missed = tell d (λ t. record t { cache_misses = word (t.cache_misses + 1) }) s in
        let (got, s') = raw_read_with_retry d current 1 missed in
        elim got [
          | some (content ∷ _) ↦ (some content, cache_store d current content s')
          | _ ↦ (none, s')
        ]
  ]

  -- The loop of `block_device_read`, with the rounds that are left, from block `lba` on.
  unfoldable pub read_loop : ℕ → Device → ℕ → System W → Option (List Content) × System W
  read_loop zero d lba s = (some [], s)
  read_loop (suc rounds) d lba s =
      let (got, s') = read_block d lba s in
      let ended = if rounds == 0 && wants_ahead d lba s' then read_ahead d (lba + 1) s' else s' in
      let (more, s'') = read_loop rounds d (lba + 1) ended in
      elim got [
        | none ↦ (none, s')
        | some content ↦ elim more [ none ↦ (none, s'') | some rest ↦ (some (content ∷ rest), s'') ]
      ]

  -- `block_device_read`
  unfoldable pub read_device : Reader W
  read_device d lba count s =
      if not (request_in_bounds d lba count) || not (can_read d)
      then (none, refuse d s)
      else read_loop count d lba (
          tell d
            (λ t. record t {
              read_ops = word (t.read_ops + 1);
              blocks_read = word (t.blocks_read + count);
            })
            s)

-- The loop of `block_device_write` that stores the blocks in the cache.
unfoldable pub store_all : {W : Type 0} → Device → ℕ → List Content → System W → System W
store_all d lba [] s = s
store_all d lba (content ∷ rest) s = store_all d (lba + 1) rest (cache_store d lba content s)

-- With `device->ops->write_blocks` as an argument.
module _ {W : Type 0} (writer : Writer W) where
  unfoldable pub raw_write_from : ℕ → ℕ → Device → ℕ → ℕ → List Content → System W → Bool × System W
  raw_write_from zero attempt d lba count blocks s =
      (false, tell d (count_failure (retry_budget d)) s)
  raw_write_from (suc rounds) attempt d lba count blocks s =
      let (done, s') = writer d lba count blocks s in
      let again = raw_write_from rounds (attempt + 1) d lba count blocks s' in
      if done then (true, if attempt == 0 then s' else tell d (count_retries attempt) s') else again

  unfoldable pub raw_write_with_retry : Device → ℕ → ℕ → List Content → System W → Bool × System W
  raw_write_with_retry d lba count blocks s =
      raw_write_from (suc (retry_budget d)) 0 d lba count blocks s

  -- `block_device_write`
  unfoldable pub write_device : Writer W
  write_device d lba count blocks s =
      if (not (request_in_bounds d lba count) || has_flag d Flag.read_only) || not (can_write d)
      then (false, refuse d s)
      else (let counted =
            tell d
              (λ t. record t {
                write_ops = word (t.write_ops + 1);
                blocks_written = word (t.blocks_written + count);
              })
              s in
          let (done, s') = raw_write_with_retry d lba count blocks counted in
          if done then (true, store_all d lba blocks s') else (false, s'))

-- A partition's request reaches beyond the last address.
abbrev pub overflows : Device → ℕ → Bool
overflows d lba = ltb (2 ^ 64 - 1 - d.start_lba) lba

module _ {W : Type 0} (hw : Hardware W) where
  -- `device->ops->read_blocks`, for a chain of at most `depth` devices.
  unfoldable pub ops_read : ℕ → Reader W
  ops_read zero d lba count s = (none, s)
  ops_read (suc depth) d lba count s = elim d.ops [
    | absent ↦ (none, s)
    | driver _ _ _ ↦
        let (got, w) = hw.read_blocks d lba count (s.world) in (got, record s { world = w })
    | partition_ops ↦ if overflows d lba then (none, s) else elim d.parent [
      | none ↦ (none, s)
      | some p ↦ read_device (ops_read depth) (device_at (s.table) p) (d.start_lba + lba) count s
    ]
  ]

  unfoldable pub ops_write : ℕ → Writer W
  ops_write zero d lba count blocks s = (false, s)
  ops_write (suc depth) d lba count blocks s = elim d.ops [
    | absent ↦ (false, s)
    | driver _ _ _ ↦
        let (done, w) = hw.write_blocks d lba count blocks (s.world) in
        (done, record s { world = w })
    | partition_ops ↦ if overflows d lba then (false, s) else elim d.parent [
      | none ↦ (false, s)
      | some p ↦
          write_device (ops_write depth) (device_at (s.table) p) (d.start_lba + lba) count blocks s
    ]
  ]

  -- A chain of parents is no longer than the table.
  unfoldable pub block_device_read : Reader W
  block_device_read d lba count s = read_device (ops_read (max_count + 1)) d lba count s

  unfoldable pub block_device_write : Writer W
  block_device_write d lba count blocks s =
      write_device (ops_write (max_count + 1)) d lba count blocks s
