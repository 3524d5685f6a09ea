-- ===== src/Filesystem.antt =====
-- The table of mounts of src/kernel/filesystem.c. A pointer to a mount is its slot in the table, a
-- pointer to a device its index among the block devices; the contexts of the drivers, and the media
-- behind them, are a world `W` that the functions of `Contexts` read and change; what a driver caches, or
-- keeps as its last error, when it reads is no part of that world. The locks are left out and the
-- calls are taken one after the other: in the source `filesystem_unmount` tests whether a mount is in
-- use and has references before it takes the lock of the mount.
pub mod Slots
pub mod Mounting
pub mod References
use Prim.Native.Nat.{bit_and, bit_or}
use asas_os.Common.{
  ℕ, zero, suc, ◌+◌, ◌-◌, ◌^◌, Bool, true, false, not, ◌&&◌, ◌||◌, Option, none, some, List, [],
  ◌∷◌, ◌++◌, ltb, leb, ◌==◌, if◌then◌else◌, get_or, set, length,
}
use asas_os.Common.Words.{word32, sub_word32}

abbrev pub max_drivers : ℕ
max_drivers = 8

abbrev pub max_mounts : ℕ
max_mounts = 16

-- `FILESYSTEM_FLAG_READ_ONLY`
abbrev pub flag_read_only : ℕ
flag_read_only = 0x01

-- `FILESYSTEM_FLAG_NO_EXEC`
abbrev pub flag_no_exec : ℕ
flag_no_exec = 0x02

-- The built-in drivers; the `flags` of each are 0.
pub data Driver : Type 0 where
  fat32 : Driver
  ntfs : Driver
  exfat : Driver
  iso9660 : Driver
  udf : Driver
  ext2 : Driver

-- `ASAS_FILESYSTEM_MOUNT`; the context 0 is the null pointer.
pub record Mount : Type 0 where
  pub id : ℕ
  pub generation : ℕ
  pub reference_count : ℕ
  pub device : Option ℕ
  pub driver : Option Driver
  pub flags : ℕ
  pub context : ℕ
  pub active : Bool

abbrev pub no_mount : Mount
no_mount = record {
  id = 0;
  generation = 0;
  reference_count = 0;
  device = none;
  driver = none;
  flags = 0;
  context = 0;
  active = false;
}

-- `ASAS_FILE_STAT` of a path that exists
pub record Stat : Type 0 where
  pub size : ℕ
  pub is_directory : Bool
  pub read_only : Bool

-- A change of a file system, with the path that the driver gets.
pub data Change : Type 0 where
  write : List ℕ → List ℕ → Change
  unlink : List ℕ → Change
  mkdir : List ℕ → Change
  rmdir : List ℕ → Change
  rename : List ℕ → List ℕ → Change

-- The functions of the drivers on their contexts. `is_writable` is asked for ntfs and ext2 only,
-- `sync` for fat32 only.
pub record Contexts (W : Type 0) : Type 0 where
  pub probe : Driver → ℕ → W → Bool × W
  pub create : Driver → ℕ → W → ℕ × W
  pub destroy : Driver → ℕ → W → W
  pub is_writable : Driver → ℕ → W → Bool
  pub sync : ℕ → W → Bool × W
  pub stat : Driver → ℕ → List ℕ → W → Option Stat
  pub read : Driver → ℕ → List ℕ → ℕ → W → List ℕ
  pub change : Driver → ℕ → Change → W → Bool × W

-- The static variables, and the world.
pub record Table (W : Type 0) : Type 0 where
  pub drivers : List Driver
  pub mounts : List Mount
  pub mount_count : ℕ
  pub next_generation : ℕ
  pub world : W

-- The number of the first inactive slot, from one on; 16 where there is none.
unfoldable pub free_slot : ℕ → List Mount → ℕ
free_slot slot [] = slot
free_slot slot (m ∷ rest) = if not m.active then slot else free_slot (slot + 1) rest

-- A driver opens a file system read-only: ntfs where it cannot write, ext2 where it must not.
abbrev pub is_limited : {W : Type 0} → Contexts W → Driver → ℕ → W → Bool
is_limited c d context w = elim d [
  | ntfs ↦ not (c.is_writable ntfs context w)
  | ext2 ↦ not (c.is_writable ext2 context w)
  | _ ↦ false
]

-- `next_generation++`, which passes over 0
abbrev pub next_of : ℕ → ℕ
next_of generation = if word32 (generation + 1) == 0 then 1 else word32 (generation + 1)

-- The loop of `filesystem_get_mount`, with the number of active mounts to pass over.
unfoldable pub nth_active : ℕ → ℕ → List Mount → Option ℕ
nth_active slot index [] = none
nth_active slot index (m ∷ rest) =
    let later = nth_active (slot + 1) (if m.active then index - 1 else index) rest in
    if not m.active then later else if index == 0 then some slot else later

module _ {W : Type 0} where
  abbrev pub mount_at : Table W → ℕ → Mount
  mount_at t slot = get_or t.mounts slot no_mount

  abbrev pub put_mount : Table W → ℕ → Mount → Table W
  put_mount t slot m = record t { mounts = set t.mounts slot m }

  unfoldable pub filesystem_register : Driver → Table W → Bool × Table W
  filesystem_register d t =
      if leb max_drivers (length t.drivers)
      then (false, t)
      else (true, record t { drivers = t.drivers ++ (d ∷ []) })

  unfoldable pub filesystem_register_builtin_drivers : Table W → Table W
  filesystem_register_builtin_drivers t =
      let (_, t1) = filesystem_register fat32 t in
      let (_, t2) = filesystem_register ntfs t1 in
      let (_, t3) = filesystem_register exfat t2 in
      let (_, t4) = filesystem_register ext2 t3 in
      let (_, t5) = filesystem_register udf t4 in let (_, t6) = filesystem_register iso9660 t5 in t6

  -- The mount once its slot is filled, before the driver is asked.
  abbrev pub filled : Table W → ℕ → ℕ → Driver → ℕ → Mount
  filled t slot device d flags = record {
    id = slot;
    generation = t.next_generation;
    reference_count = 0;
    device = some device;
    driver = some d;
    flags = flags;
    context = 0;
    active = true;
  }

  -- The slot is one of the table, and the mount in it is in use and not referred to.
  unfoldable pub can_unmount : Table W → ℕ → Bool
  can_unmount t slot =
      (ltb slot max_mounts && (mount_at t slot).id == slot)
      && ((mount_at t slot).active && (mount_at t slot).reference_count == 0)

  -- The end of `filesystem_unmount`.
  unfoldable pub close_slot : ℕ → Table W → Table W
  close_slot slot t = record t {
    mount_count = sub_word32 t.mount_count 1;
    mounts =
        set t.mounts slot
          (record (mount_at t slot) { device = none; driver = none; context = 0; active = false });
  }

  unfoldable pub filesystem_mount_acquire : ℕ → Table W → Bool × Table W
  filesystem_mount_acquire slot t =
      if not (ltb slot max_mounts && (mount_at t slot).id == slot) || not ((mount_at t slot).active)
      then (false, t)
      else (
        true,
        put_mount t slot (record (mount_at t slot) {
          reference_count = word32 ((mount_at t slot).reference_count + 1);
        }),
      )

  unfoldable pub filesystem_mount_release : ℕ → Table W → Table W
  filesystem_mount_release slot t =
      if (ltb slot max_mounts && (mount_at t slot).id == slot)
        && ((mount_at t slot).active && not ((mount_at t slot).reference_count == 0))
      then put_mount t slot
          (record (mount_at t slot) { reference_count = (mount_at t slot).reference_count - 1 })
      else t

  unfoldable pub filesystem_get_mount : ℕ → Table W → Option ℕ
  filesystem_get_mount index t = nth_active 0 index t.mounts

-- An active mount is on the device, or on a partition of it; `parent` is that of the block devices.
unfoldable pub is_mounted_in : (ℕ → Option ℕ) → ℕ → List Mount → Bool
is_mounted_in parent device [] = false
is_mounted_in parent device (m ∷ rest) =
    let later = is_mounted_in parent device rest in
    if not m.active then later else elim m.device [
      | none ↦ later
      | some mounted ↦
          if mounted == device || elim (parent mounted) [ none ↦ false | some p ↦ p == device ]
          then true
          else later
    ]

unfoldable pub filesystem_device_is_mounted : {W : Type 0} → (ℕ → Option ℕ) → ℕ → Table W → Bool
filesystem_device_is_mounted parent device t = is_mounted_in parent device t.mounts

module _ {W : Type 0} (c : Contexts W) where
  -- The loop of `filesystem_probe`.
  unfoldable pub probe_from : List Driver → ℕ → W → Option Driver × W
  probe_from [] device w = (none, w)
  probe_from (d ∷ rest) device w =
      let (fits, w') = c.probe d device w in
      let later = probe_from rest device w' in if fits then (some d, w') else later

  unfoldable pub filesystem_probe : ℕ → Table W → Option Driver × Table W
  filesystem_probe device t =
      let (found, w) = probe_from t.drivers device t.world in (found, record t { world = w })

  -- `driver->mount` of the built-in drivers on a filled slot: the mount and the world.
  unfoldable pub attach : Driver → ℕ → Mount → W → Mount × W
  attach d device m w =
      let (context, w') = c.create d device w in
      if not (context == 0) && is_limited c d context w'
      then (record m { context = context; flags = bit_or m.flags flag_read_only }, w')
      else (record m { context = context }, w')

  unfoldable pub filesystem_mount : ℕ → Driver → ℕ → Table W → Option ℕ × Table W
  filesystem_mount device d flags t =
      let slot = free_slot 0 t.mounts in
      let (m, w) = attach d device (filled t slot device d flags) t.world in
      let after = record t { next_generation = next_of t.next_generation; world = w } in
      if leb max_mounts t.mount_count || slot == max_mounts
      then (none, t)
      else if m.context == 0
      then (none, put_mount after slot (record m { active = false }))
      else (some slot, record (put_mount after slot m) { mount_count = word32 (t.mount_count + 1) })

  -- The destruction of the context: fat32 is synchronized before, and refuses where that fails.
  unfoldable pub detach : Mount → W → Bool × W
  detach m w = elim m.driver [
    | none ↦ (true, w)
    | some d ↦ elim d [
      | fat32 ↦
          let (done, w') = c.sync m.context w in
          if done then (true, c.destroy fat32 m.context w') else (false, w')
      | other ↦ (true, c.destroy other m.context w)
    ]
  ]

  unfoldable pub filesystem_unmount : ℕ → Table W → Bool × Table W
  filesystem_unmount slot t =
      let (done, w) = detach (mount_at t slot) t.world in
      if not (can_unmount t slot)
      then (false, t)
      else if done
      then (true, close_slot slot (record t { world = w }))
      else (false, record t { world = w })

  -- The loop of `filesystem_initialize`, with the slots that are left.
  unfoldable pub unmount_all : ℕ → ℕ → Table W → Table W
  unmount_all zero slot t = t
  unmount_all (suc rounds) slot t =
      unmount_all rounds (slot + 1)
        (if (mount_at t slot).active then (filesystem_unmount slot t).1 else t)

  unfoldable pub filesystem_initialize : Table W → Table W
  filesystem_initialize t = record (unmount_all max_mounts 0 t) { drivers = [] }

  -- `filesystem_stat`: none where it returns 0.
  unfoldable pub filesystem_stat : ℕ → List ℕ → Table W → Option Stat
  filesystem_stat slot path t =
      if not ((mount_at t slot).active) then none else elim (mount_at t slot).driver [
        | none ↦ none
        | some d ↦ c.stat d (mount_at t slot).context path t.world
      ]

  -- `filesystem_read`: the bytes that were read.
  unfoldable pub filesystem_read : ℕ → List ℕ → ℕ → Table W → List ℕ
  filesystem_read slot path capacity t =
      if not ((mount_at t slot).active) then [] else elim (mount_at t slot).driver [
        | none ↦ []
        | some d ↦ c.read d (mount_at t slot).context path capacity t.world
      ]

  -- `filesystem_write`, `filesystem_unlink`, `filesystem_mkdir`, `filesystem_rmdir` and
  -- `filesystem_rename`, which share their guard.
  unfoldable pub filesystem_change : ℕ → Change → Table W → Bool × Table W
  filesystem_change slot change t =
      if not ((mount_at t slot).active) || not (bit_and (mount_at t slot).flags flag_read_only == 0)
      then (false, t)
      else elim (mount_at t slot).driver [
        | none ↦ (false, t)
        | some d ↦
            let (done, w) = c.change d (mount_at t slot).context change t.world in
            (done, record t { world = w })
      ]
