-- ===== src/Block/Flush.antt =====
-- Flushes, barriers and telemetry of src/kernel/block_device.c.
use mathlib.Core.Path.{subst}
use mathlib.Core.Option.{some_inj}
use asas_os.Common.{
  ℕ, zero, suc, ◌+◌, ◌<◌, ◌≡◌, ◌⊎◌, inl, inr, refl, ◌∙◌, ap, Bool, true, false, ◌&&◌, Option, none,
  some, List, [], ◌∷◌, ltb, ◌==◌, if◌then◌else◌, arith, get_or, set, Bool-cases, Option-cases,
}
use asas_os.Common.Words.{word}
use asas_os.Block.Flag
use asas_os.Block.Device.{
  Device, Ops, absent, partition_ops, driver, Telemetry, Table, no_telemetry, device_at, max_count,
  has_flag,
}
use asas_os.Block.Cache.{
  Entry, System, matches, find_entry, cache_find, invalidate, cache_invalidate_device, tell,
}
use asas_os.Block.Transfer.{Hardware}
use asas_os.Block.Bounds.{IsTable, IsRegistered}

abbrev pub count_flush : Telemetry → Telemetry
count_flush t = record t { flush_ops = word (t.flush_ops + 1) }

-- `if (device->parent != 0) cache_invalidate_device(device->parent);`
unfoldable pub drop_parent : {W : Type 0} → Option ℕ → System W → System W
drop_parent none s = s
drop_parent (some p) s = cache_invalidate_device (device_at s.table p) s

module _ {W : Type 0} (hw : Hardware W) where
  -- `block_device_flush`, for a chain of at most `depth` devices.
  unfoldable pub flush_from : ℕ → Device → System W → Bool × System W
  flush_from zero d s = (false, s)
  flush_from (suc depth) d s =
      let counted = tell d count_flush s in
      elim d.ops [
        | absent ↦ (false, s)
        | driver _ _ false ↦ (true, counted)
        | driver _ _ true ↦
            let (done, w) = hw.flush d (counted.world) in (done, record counted { world = w })
        | partition_ops ↦ elim d.parent [
          | none ↦ (false, counted)
          | some p ↦ flush_from depth (device_at (counted.table) p) counted
        ]
      ]

  unfoldable pub block_device_flush : Device → System W → Bool × System W
  block_device_flush d s = flush_from (max_count + 1) d s

  -- The cached blocks of the device and of its parent are dropped first.
  unfoldable pub block_device_flush_barrier : Device → System W → Bool × System W
  block_device_flush_barrier d s =
      block_device_flush d (drop_parent d.parent (cache_invalidate_device d s))

-- A copy of the telemetry of a device.
unfoldable pub block_device_get_telemetry : {W : Type 0} → Device → System W → Option Telemetry
block_device_get_telemetry d s =
    if ltb d.id max_count then some (get_or s.table.telemetry d.id no_telemetry) else none

Ops-cases : (o : Ops) → (o ≡ absent) ⊎ ((o ≡ partition_ops) ⊎ ((r w f : Bool) × (o ≡ driver r w f)))
Ops-cases absent = inl refl
Ops-cases partition_ops = inr (inl refl)
Ops-cases (driver r w f) = inr (inr (r, w, f, refl))

module _ {W : Type 0} (hw : Hardware W) where
  IsRegistered-tell :
      (t : Table) (d : Device) (k : ℕ)
      → IsRegistered t k
      → IsRegistered
          (record t {
            telemetry = set t.telemetry d.id (count_flush (get_or t.telemetry d.id no_telemetry));
          })
          k
  IsRegistered-tell t d k r = record { own_id = r.own_id; small = r.small; inside = r.inside }

  flush_from-step :
      (a b : ℕ) (d : Device) (s : System W)
      → ((p : ℕ)
          → d.parent ≡ some p
          → flush_from hw a (device_at s.table p) (tell d count_flush s)
            ≡ flush_from hw b (device_at s.table p) (tell d count_flush s))
      → flush_from hw (suc a) d s ≡ flush_from hw (suc b) d s
  unfolding flush_from
  flush_from-step a b d s same = elim (Ops-cases d.ops) [
    | inl o ↦ rw (o, flush_from) refl
    | inr (inl o) ↦ elim (Option-cases d.parent) [
      | inl q ↦ rw (o, q, flush_from) refl
      | inr (p, q) ↦ rw (o, q, flush_from) (same p q)
    ]
    | inr (inr (r, w, f, o)) ↦ elim (Bool-cases f) [
      | inl z ↦ rw (o, z, flush_from) refl
      | inr z ↦ rw (o, z, flush_from) refl
    ]
  ]

  -- A device's flush does not depend on the depth that is allowed, once it exceeds the device's index
  -- in a well-formed table: the requests always come to a device without a parent.
  pub flush_from-depth :
      (a b i : ℕ) (s : System W)
      → IsTable s.table
      → i < s.table.device_count
      → i < a
      → i < b
      → flush_from hw a (device_at s.table i) s ≡ flush_from hw b (device_at s.table i) s
  unfolding flush_from
  flush_from-depth zero b i s v h ha hb = absurd (omega arith)
  flush_from-depth (suc a) zero i s v h ha hb = absurd (omega arith)
  flush_from-depth (suc a) (suc b) i s v h ha hb =
      flush_from-step a b (device_at s.table i) s (λ p q.
        let (lt, l) = (v.registered i h).inside p q in
        flush_from-depth a b p (tell (device_at s.table i) count_flush s)
          (record {
            size = v.size;
            count_in = v.count_in;
            registered =
                λ k z. IsRegistered-tell s.table (device_at s.table i) k (v.registered k z);
          })
          (omega arith) (omega arith) (omega arith))

-- The barrier leaves no block of the device in the cache: the next read asks the device.
invalidate-find_entry :
    (d : Device) (lba index : ℕ) (l : List Entry) → find_entry d lba index (invalidate d l) ≡ none
unfolding find_entry invalidate
invalidate-find_entry d lba index [] = refl
invalidate-find_entry d lba index (e ∷ l) = elim (Bool-cases (e.valid && e.device_id == d.id)) [
  | inl h ↦ rw h (invalidate-find_entry d lba (index + 1) l)
  | inr h ↦ rw h (rw h (invalidate-find_entry d lba (index + 1) l))
]

invalidate-keeps :
    (d other : Device) (lba index : ℕ) (l : List Entry)
    → find_entry d lba index l ≡ none
    → find_entry d lba index (invalidate other l) ≡ none
unfolding find_entry invalidate
invalidate-keeps d other lba index [] h = refl
invalidate-keeps d other lba index (e ∷ l) h = elim (Bool-cases (matches d lba e)) [
  | inl m ↦ absurd (ground (arith, rw m at h))
  | inr m ↦ elim (Bool-cases (e.valid && e.device_id == other.id)) [
    | inl z ↦ rw z (invalidate-keeps d other lba (index + 1) l (rw m at h))
    | inr z ↦ rw z (rw m (invalidate-keeps d other lba (index + 1) l (rw m at h)))
  ]
]

cache_find-none :
    {W : Type 0} (d : Device) (lba : ℕ) (s : System W)
    → find_entry d lba 0 s.cache ≡ none
    → cache_find d lba s ≡ none
unfolding cache_find
cache_find-none d lba s h = elim (Bool-cases (has_flag d Flag.no_cache)) [
  | inl z ↦ rw z refl
  | inr z ↦ rw z h
]

module _ {W : Type 0} (hw : Hardware W) where
  flush_from-cache :
      (depth : ℕ) (d : Device) (s : System W) → (flush_from hw depth d s).1.cache ≡ s.cache
  unfolding flush_from
  flush_from-cache zero d s = refl
  flush_from-cache (suc depth) d s = elim (Ops-cases d.ops) [
    | inl o ↦ rw (o, flush_from) refl
    | inr (inl o) ↦ elim (Option-cases d.parent) [
      | inl q ↦ rw (o, q, flush_from) refl
      | inr (p, q) ↦
          rw (o, q, flush_from)
            (flush_from-cache depth (device_at s.table p) (tell d count_flush s))
    ]
    | inr (inr (r, w, f, o)) ↦ elim (Bool-cases f) [
      | inl z ↦ rw (o, z, flush_from) refl
      | inr z ↦ rw (o, z, flush_from) refl
    ]
  ]

  gone :
      (d e : Device) (lba : ℕ) (s : System W)
      → find_entry e lba 0 s.cache ≡ none
      → cache_find e lba (flush_from hw (max_count + 1) d s).1 ≡ none
  gone d e lba s h =
      cache_find-none e lba (flush_from hw (max_count + 1) d s).1
        (ap (find_entry e lba 0) (flush_from-cache (max_count + 1) d s) ∙ h)

  drop_parent-find_entry :
      (d : Device) (parent : Option ℕ) (lba : ℕ) (s : System W)
      → find_entry d lba 0 s.cache ≡ none
      → (find_entry d lba 0 (drop_parent parent s).cache ≡ none)
        × ((p : ℕ)
            → parent ≡ some p
            → find_entry (device_at s.table p) lba 0 (drop_parent parent s).cache ≡ none)
  unfolding drop_parent cache_invalidate_device
  drop_parent-find_entry d none lba s h = (h, λ p q. absurd (ground arith))
  drop_parent-find_entry d (some k) lba s h = (
    invalidate-keeps d (device_at s.table k) lba 0 s.cache h,
    λ p q.
        subst
          (λ i.
            find_entry (device_at s.table i) lba 0 (invalidate (device_at s.table k) s.cache)
            ≡ none)
          (some_inj.0 q) (invalidate-find_entry (device_at s.table k) lba 0 s.cache),
  )

  -- After a barrier, also one whose flush fails, the cache has no block of the device and none of its
  -- parent: the next read of a block asks the device.
  pub block_device_flush_barrier-cache_find :
      (d : Device) (lba : ℕ) (s : System W)
      → (cache_find d lba (block_device_flush_barrier hw d s).1 ≡ none)
        × ((p : ℕ)
            → d.parent ≡ some p
            → cache_find (device_at s.table p) lba (block_device_flush_barrier hw d s).1 ≡ none)
  unfolding block_device_flush_barrier block_device_flush cache_invalidate_device
  block_device_flush_barrier-cache_find d lba s =
      let own = cache_invalidate_device d s in
      let (mine, theirs) =
        drop_parent-find_entry d d.parent lba own (invalidate-find_entry d lba 0 s.cache) in
      (
        gone d d lba (drop_parent d.parent own) mine,
        λ p q. gone d (device_at s.table p) lba (drop_parent d.parent own) (theirs p q),
      )
