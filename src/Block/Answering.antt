-- ===== src/Block/Answering.antt =====
-- `block_device_read` of src/kernel/block_device.c on a device that fails no more often than is retried.
use asas_os.Common.{
  ℕ, zero, suc, ◌+◌, ◌≤◌, ◌<◌, ◌^◌, ◌≡◌, ◌≢◌, ◌⊎◌, inl, inr, refl, ◌∙◌, ap, true, ◌&&◌, ◌||◌, none,
  some, ltb, ◌==◌, if◌then◌else◌, arith, Bool-cases, Option-cases,
}
use asas_os.Common.Words.{word}
use asas_os.Block.Device.{Device, has_flag, retry_budget}
use asas_os.Block.Flag
use asas_os.Block.Cache.{
  Content, System, cache_find, cache_allocate, cache_store, cache_max_block_size, tell,
}
use asas_os.Block.Transfer.{
  Reader, can_read, raw_read_from, raw_read_with_retry, read_ahead, wants_ahead, read_block,
  read_loop, read_device,
}
use asas_os.Block.Bounds.{IsInBounds, request_in_bounds_iff}
use asas_os.Block.Coherence.{Coherent}
use asas_os.Block.Fetching.{stretch, Fetched, raw_read-Fetched}
use asas_os.Block.Reading.{read_device-Stays}

cache_allocate-world :
    {W : Type 0} (d : Device) (lba : ℕ) (s : System W) → (cache_allocate d lba s).1.world ≡ s.world
unfolding cache_allocate
cache_allocate-world d lba s =
    elim (Bool-cases (has_flag d Flag.no_cache || ltb cache_max_block_size d.logical_block_size)) [
      | inl f ↦ rw f refl
      | inr f ↦ rw f refl
    ]

cache_store-world :
    {W : Type 0} (d : Device) (lba : ℕ) (c : Content) (s : System W)
    → (cache_store d lba c s).world ≡ s.world
unfolding cache_store
cache_store-world d lba c s = elim (Option-cases (cache_find d lba s)) [
  | inr (slot, f) ↦ rw (f, cache_store) refl
  | inl f ↦ elim (Option-cases ((cache_allocate d lba s).0)) [
    | inl a ↦ rw (f, a, cache_store) (cache_allocate-world d lba s)
    | inr (slot, a) ↦ rw (f, a, cache_store) (cache_allocate-world d lba s)
  ]
]

-- The driver's function is faithful, and `Left n` says that it fails at most `n` more reads of the
-- blocks from `start` on: a read keeps that, and one of those blocks is given or one failure is used up.
module _ {W : Type 0} (d : Device) (content : W → ℕ → Content) (reader : Reader W)
    (faithful : (lba : ℕ) (s : System W) → Fetched d content s lba (reader d lba 1 s))
    (Left : ℕ → W → Type 0)
    (keeps : (n lba : ℕ) (s : System W) → Left n s.world → Left n (reader d lba 1 s).1.world) where
  raw_read_from-keeps :
      (rounds attempt n lba : ℕ) (s : System W)
      → Left n s.world
      → Left n (raw_read_from reader rounds attempt d lba 1 s).1.world
  unfolding raw_read_from
  raw_read_from-keeps zero attempt n lba s l = l
  raw_read_from-keeps (suc rounds) attempt n lba s l = elim (Option-cases ((reader d lba 1 s).0)) [
    | inl f ↦
        rw (f, raw_read_from)
          (raw_read_from-keeps rounds (attempt + 1) n lba (reader d lba 1 s).1 (keeps n lba s l))
    | inr (blocks, f) ↦ elim (Bool-cases (attempt == 0)) [
      | inl z ↦ rw (f, z, raw_read_from) (keeps n lba s l)
      | inr z ↦ rw (f, z, raw_read_from) (keeps n lba s l)
    ]
  ]

  raw_read-keeps :
      (n lba : ℕ) (s : System W)
      → Left n s.world
      → Left n (raw_read_with_retry reader d lba 1 s).1.world
  unfolding raw_read_with_retry
  raw_read-keeps n lba s l = raw_read_from-keeps (suc (retry_budget d)) 0 n lba s l

  read_block-keeps :
      (n lba : ℕ) (s : System W) → Left n s.world → Left n (read_block reader d lba s).1.world
  unfolding read_block
  read_block-keeps n lba s l =
      let missed = tell d (λ t. record t { cache_misses = word (t.cache_misses + 1) }) s in
      let one = raw_read-Fetched d content reader faithful lba missed in
      let after = (raw_read_with_retry reader d lba 1 missed).1 in
      elim (Option-cases (cache_find d lba s)) [
        | inr (slot, f) ↦ rw (f, read_block) l
        | inl f ↦ elim (Option-cases ((raw_read_with_retry reader d lba 1 missed).0)) [
          | inl g ↦ rw (f, g, read_block) (raw_read-keeps n lba missed l)
          | inr (blocks, g) ↦
              rw (f, g ∙ ap some (one.exact blocks g), read_block)
                (rw (cache_store-world d lba (content s.world lba) after)
                  (raw_read-keeps n lba missed l))
        ]
      ]

  read_ahead-keeps :
      (n lba : ℕ) (s : System W) → Left n s.world → Left n (read_ahead reader d lba s).world
  unfolding read_ahead
  read_ahead-keeps n lba s l =
      let claimed = (cache_allocate d lba s).1 in
      let l' : Left n claimed.world = rw (cache_allocate-world d lba s) l in
      let one = raw_read-Fetched d content reader faithful lba claimed in
      elim (Option-cases ((cache_allocate d lba s).0)) [
        | inl a ↦ rw (a, read_ahead) l'
        | inr (slot, a) ↦ elim (Option-cases ((raw_read_with_retry reader d lba 1 claimed).0)) [
          | inl g ↦ rw (a, g, read_ahead) (raw_read-keeps n lba claimed l')
          | inr (blocks, g) ↦
              rw (a, g ∙ ap some (one.exact blocks g), read_ahead) (raw_read-keeps n lba claimed l')
        ]
      ]

  module _ (start count : ℕ)
      (answers : (n lba : ℕ) (s : System W)
        → start ≤ lba
        → lba < start + count
        → Left n s.world
        → ((reader d lba 1 s).0 ≢ none)
          ⊎ ((m : ℕ) × (m < n) × Left m (reader d lba 1 s).1.world)) where
    raw_read_from-succeeds :
        (rounds attempt n lba : ℕ) (s : System W)
        → start ≤ lba
        → lba < start + count
        → Left n s.world
        → n < rounds
        → (raw_read_from reader rounds attempt d lba 1 s).0 ≢ none
    unfolding raw_read_from
    raw_read_from-succeeds zero attempt n lba s lo hi l b q = absurd (omega arith)
    raw_read_from-succeeds (suc rounds) attempt n lba s lo hi l b q =
        elim (Option-cases ((reader d lba 1 s).0)) [
          | inr (blocks, f) ↦ absurd (ground (arith, rw (f, raw_read_from) at q))
          | inl f ↦ elim (answers n lba s lo hi l) [
            | inl given ↦ given f
            | inr (m, less, l') ↦
                raw_read_from-succeeds rounds (attempt + 1) m lba (reader d lba 1 s).1 lo hi l'
                  (omega arith) (rw (f, raw_read_from) at q)
          ]
        ]

    read_block-succeeds :
        (lba : ℕ) (s : System W)
        → start ≤ lba
        → lba < start + count
        → Left (retry_budget d) s.world
        → (read_block reader d lba s).0 ≢ none
    unfolding read_block raw_read_with_retry
    read_block-succeeds lba s lo hi l q =
        let missed = tell d (λ t. record t { cache_misses = word (t.cache_misses + 1) }) s in
        let one = raw_read-Fetched d content reader faithful lba missed in
        elim (Option-cases (cache_find d lba s)) [
          | inr (slot, f) ↦ absurd (ground (arith, rw (f, read_block) at q))
          | inl f ↦ elim (Option-cases ((raw_read_with_retry reader d lba 1 missed).0)) [
            | inl g ↦
                raw_read_from-succeeds (suc (retry_budget d)) 0 (retry_budget d) lba missed lo hi l
                  (omega arith) g
            | inr (blocks, g) ↦
                absurd (ground (arith, rw (f, g ∙ ap some (one.exact blocks g), read_block) at q))
          ]
        ]

    read_loop-succeeds :
        (rounds lba : ℕ) (s : System W)
        → start ≤ lba
        → lba + rounds ≤ start + count
        → Left (retry_budget d) s.world
        → (read_loop reader rounds d lba s).0 ≢ none
    unfolding read_loop
    read_loop-succeeds zero lba s lo hi l q = ground arith
    read_loop-succeeds (suc rounds) lba s lo hi l q =
        let s' = (read_block reader d lba s).1 in
        let l' : Left (retry_budget d) s'.world = read_block-keeps (retry_budget d) lba s l in
        let last = rounds == 0 && wants_ahead reader d lba s' in
        let ended = if last then read_ahead reader d (lba + 1) s' else s' in
        let l'' : Left (retry_budget d) ended.world = elim (Bool-cases last) [
          | inl z ↦ rw z (read_ahead-keeps (retry_budget d) (lba + 1) s' l')
          | inr z ↦ rw z l'
        ] in
        elim (Option-cases ((read_block reader d lba s).0)) [
          | inl f ↦ read_block-succeeds lba s lo (omega arith) l f
          | inr (c, f) ↦ elim (Option-cases ((read_loop reader rounds d (lba + 1) ended).0)) [
            | inl g ↦
                read_loop-succeeds rounds (lba + 1) ended (omega arith) (omega (arith, hi)) l'' g
            | inr (rest, g) ↦ absurd (ground (arith, rw (f, g, read_loop) at q))
          ]
        ]

    -- A read of blocks that are addressable and lie on the device, from a device that has a read
    -- function, gives what the medium holds in them, when the cache agrees with the medium and the
    -- driver fails at most as many reads of those blocks as are retried for one. The driver's function
    -- is taken to give the medium's contents where it succeeds, and to change neither medium nor cache.
    pub read_device-exact :
        (s : System W)
        → Coherent d content s
        → start < 2 ^ 64
        → d.block_count < 2 ^ 64
        → IsInBounds d start count
        → can_read d ≡ true
        → Left (retry_budget d) s.world
        → (read_device reader d start count s).0 ≡ some (stretch content s.world start count)
    unfolding read_device
    read_device-exact s h low size within r l =
        let b = (request_in_bounds_iff d start count low size).1 within in
        elim (read_device-Stays d content reader faithful start count s h).1 [
          | inr q ↦ q
          | inl q ↦ absurd (
              read_loop-succeeds count start _ (omega arith) (omega arith) l
                (rw (b, r, read_device) at q))
        ]
