-- ===== src/Block/Bounds.antt =====
-- Bounds and protection in src/kernel/block_device.c.
use mathlib.Core.Path.{subst}
use mathlib.Core.Option.{some_inj}
use asas_os.Common.{
  ℕ, ◌+◌, ◌^◌, ◌≤◌, ◌<◌, ◌≡◌, ◌↔◌, ◌⊎◌, inl, inr, refl, sym, ◌∙◌, ap, true, false, none, some, List,
  arith, Bool-cases, set, length, length-set, get_or-set_self, get_or-set_ne, ℕ_discrete,
}
use asas_os.Block.Flag
use asas_os.Block.Device.{
  Device, Table, max_count, has_flag, is_refused, register, register_partition, is_outside,
  device_at, no_device, request_in_bounds, no_telemetry,
}
use asas_os.Block.Cache.{Content, System}
use asas_os.Block.Transfer.{
  Hardware, read_device, write_device, refuse, block_device_read, block_device_write,
}

-- A request for some blocks, of which the last is addressable, and which lie on the device where its
-- size is known.
abbrev pub IsInBounds : Device → ℕ → ℕ → Type 0
IsInBounds d lba count =
    (0 < count) × (lba + count ≤ 2 ^ 64) × ((d.block_count ≡ 0) ⊎ (lba + count ≤ d.block_count))

-- For words, the test accepts exactly the non-empty requests whose last block is addressable and,
-- where the size of the device is known, lies on the device.
pub request_in_bounds_iff :
    (d : Device) (lba count : ℕ)
    → lba < 2 ^ 64
    → d.block_count < 2 ^ 64
    → (request_in_bounds d lba count ≡ true) ↔ IsInBounds d lba count
unfolding request_in_bounds
request_in_bounds_iff d lba count h k = (λ e. ground arith, λ e. ground arith)

-- A request of words is in bounds and the test accepts it, or it is not and reading and writing it
-- fail. Writing to a read-only device fails wherever the request lies. A call that fails so leaves
-- the world and the cache as they are, and is counted as refused at most.
pub refused_lem :
    {W : Type 0} (hw : Hardware W) (d : Device) (lba count : ℕ) (blocks : List Content)
    (s : System W)
    → lba < 2 ^ 64
    → d.block_count < 2 ^ 64
    → ((IsInBounds d lba count × (request_in_bounds d lba count ≡ true))
        ⊎ ((¬ IsInBounds d lba count)
            × (block_device_read hw d lba count s ≡ (none, refuse d s))
            × (block_device_write hw d lba count blocks s ≡ (false, refuse d s))))
      × ((has_flag d Flag.read_only ≡ false)
          ⊎ (block_device_write hw d lba count blocks s ≡ (false, refuse d s)))
      × ((refuse d s).world ≡ s.world)
      × ((refuse d s).cache ≡ s.cache)
unfolding block_device_read block_device_write read_device write_device
refused_lem hw d lba count blocks s h k =
    let (there, back) = request_in_bounds_iff d lba count h k in
    (
      elim (Bool-cases (request_in_bounds d lba count)) [
        | inl t ↦ inl (there t, t)
        | inr f ↦ inr (λ within. absurd (cc (back within)), rw f refl, rw f refl)
      ],
      elim (Bool-cases (has_flag d Flag.read_only)) [ inl r ↦ inr (ground arith) | inr w ↦ inl w ],
      ground arith,
      ground arith,
    )

-- A range lies on a device: the device has no known size, or the range ends on it.
abbrev pub Lies : ℕ → ℕ → ℕ → Type 0
Lies start count size = (size ≡ 0) ⊎ (start + count ≤ size)

-- What a device of the table promises: it has its index as its name in the table, blocks of 512 to
-- 4096 bytes, and if it is a partition, a range that lies on an earlier device.
pub record IsRegistered (t : Table) (i : ℕ) : Type 0 where
  pub own_id : (device_at t i).id ≡ i
  pub small :
      (512 ≤ (device_at t i).logical_block_size) × ((device_at t i).logical_block_size ≤ 4096)
  pub inside :
      (p : ℕ)
      → (device_at t i).parent ≡ some p
      → (p < i)
        × Lies (device_at t i).start_lba (device_at t i).block_count (device_at t p).block_count

pub record IsTable (t : Table) : Type 0 where
  pub size : length t.devices ≡ max_count
  pub count_in : t.device_count ≤ max_count
  pub registered : (i : ℕ) → i < t.device_count → IsRegistered t i

-- The table once a device is written behind the others.
abbrev added : Table → Device → Table
added t d = record {
  devices = set t.devices t.device_count d;
  telemetry = set t.telemetry t.device_count no_telemetry;
  device_count = t.device_count + 1;
}

device_at-old :
    (t : Table) (d : Device) (i : ℕ) → i < t.device_count → device_at (added t d) i ≡ device_at t i
device_at-old t d i h = get_or-set_ne t.devices t.device_count i d no_device (omega arith)

device_at-new :
    (t : Table) (d : Device)
    → IsTable t
    → t.device_count < max_count
    → device_at (added t d) t.device_count ≡ d
device_at-new t d v h = get_or-set_self t.devices t.device_count d no_device (omega (arith, v.size))

old-IsRegistered :
    (t : Table) (d : Device) (i : ℕ) → IsTable t → i < t.device_count → IsRegistered (added t d) i
old-IsRegistered t d i v h =
    let r = v.registered i h in
    let same = device_at-old t d i h in
    record {
      own_id = ap (λ (x : Device). x.id) same ∙ r.own_id;
      small = rw same r.small;
      inside = λ p q.
          let (lt, l) = r.inside p (ap (λ (x : Device). x.parent) (sym same) ∙ q) in
          (lt, rw (same, device_at-old t d p (omega arith)) l);
    }

new-IsRegistered :
    (t : Table) (d : Device)
    → IsTable t
    → t.device_count < max_count
    → d.id ≡ t.device_count
    → (512 ≤ d.logical_block_size) × (d.logical_block_size ≤ 4096)
    → ((p : ℕ)
        → d.parent ≡ some p
        → (p < t.device_count) × Lies d.start_lba d.block_count (device_at t p).block_count)
    → IsRegistered (added t d) t.device_count
new-IsRegistered t d v room own small inside =
    let same = device_at-new t d v room in
    record {
      own_id = ap (λ (x : Device). x.id) same ∙ own;
      small = rw same small;
      inside = λ p q.
          let (lt, l) = inside p (ap (λ (x : Device). x.parent) (sym same) ∙ q) in
          (lt, rw (same, device_at-old t d p lt) l);
    }

added-IsTable :
    (t : Table) (d : Device)
    → IsTable t
    → t.device_count < max_count
    → d.id ≡ t.device_count
    → (512 ≤ d.logical_block_size) × (d.logical_block_size ≤ 4096)
    → ((p : ℕ)
        → d.parent ≡ some p
        → (p < t.device_count) × Lies d.start_lba d.block_count (device_at t p).block_count)
    → IsTable (added t d)
added-IsTable t d v room own small inside = record {
  size = length-set t.devices t.device_count d ∙ v.size;
  count_in = omega arith;
  registered = λ i h. elim (ℕ_discrete i t.device_count) [
    | yes e ↦
        subst (IsRegistered (added t d)) (sym e) (new-IsRegistered t d v room own small inside)
    | no ne ↦ old-IsRegistered t d i v (omega arith)
  ];
}

accepted :
    (t : Table) (d : Device)
    → is_refused t d ≡ false
    → (t.device_count < max_count) × ((512 ≤ d.logical_block_size) × (d.logical_block_size ≤ 4096))
unfolding is_refused
accepted t d h = (ground arith, (ground arith, ground arith))

register-IsTable :
    (t : Table) (d : Device)
    → IsTable t
    → ((p : ℕ)
        → d.parent ≡ some p
        → (p < t.device_count) × Lies d.start_lba d.block_count (device_at t p).block_count)
    → IsTable (register t d).1
unfolding register
register-IsTable t d v inside = elim (Bool-cases (is_refused t d)) [
  | inl h ↦ rw h v
  | inr h ↦ let (room, small) = accepted t d h in rw h (added-IsTable t _ v room refl small inside)
]

-- Registering a device without a parent, and registering a range of an earlier device as a
-- partition, keep the table well formed: every partition then has a range that lies on a device
-- registered before it, and every device has its index as its `id`.
pub register_partition-IsTable :
    (t : Table) (description : Device) (parent start_lba block_count : ℕ) (name : List ℕ)
    (flags : ℕ)
    → IsTable t
    → description.parent ≡ none
    → parent < t.device_count
    → IsTable (register t description).1
      × IsTable (register_partition t parent start_lba block_count name flags).1
unfolding register_partition is_outside
register_partition-IsTable t description parent start_lba block_count name flags v free h = (
  register-IsTable t description v (λ p q. cc),
  elim (Bool-cases (is_outside (device_at t parent) start_lba block_count)) [
    | inl out ↦ rw out v
    | inr fits ↦ rw fits (register-IsTable t _ v (λ p q. at p (some_inj.0 q) (inside fits)))
  ],
)
  where
    inside :
        is_outside (device_at t parent) start_lba block_count ≡ false
        → Lies start_lba block_count (device_at t parent).block_count
    inside fits = ground arith

    at :
        (p : ℕ)
        → parent ≡ p
        → Lies start_lba block_count (device_at t parent).block_count
        → (p < t.device_count) × Lies start_lba block_count (device_at t p).block_count
    at p q l = rw (← q) (h, l)
