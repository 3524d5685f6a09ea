-- ===== src/Vfs/Volumes.antt =====
-- Mounting and unmounting at a path, and the removal of a device, in src/kernel/vfs.c. The table of the
-- block devices is behind `Devices`, on the world of the mounts; a device is its index there.
use Prim.Native.Nat.{bit_and}
use asas_os.Common.{
  ℕ, zero, suc, ◌+◌, Bool, true, false, not, ◌&&◌, ◌||◌, Option, none, some, List, [], ◌∷◌, leb,
  ◌==◌, if◌then◌else◌, take, length, set,
}
use asas_os.Common.Texts.{codes}
use asas_os.Filesystem.{
  Driver, fat32, ntfs, exfat, iso9660, udf, ext2, Mount, Contexts, mount_at, flag_read_only,
  flag_no_exec, filesystem_device_is_mounted, filesystem_probe, filesystem_mount,
  filesystem_unmount,
}
use asas_os.Vfs.Paths.{slash, path_has_prefix, strings_equal, copy_string, Volume}
use asas_os.Vfs.State.{Vfs, max_volumes, volume_at, volume_mount}

-- `ASAS_PARTITION_INFO`, the texts of it
pub record PartitionNames : Type 0 where
  pub uuid : List ℕ
  pub label : List ℕ
  pub type_name : List ℕ

pub record Devices (W : Type 0) : Type 0 where
  pub count : W → ℕ
  pub find : List ℕ → W → Option ℕ
  pub name : ℕ → W → List ℕ
  pub flags : ℕ → W → ℕ
  pub parent : ℕ → W → Option ℕ
  pub has_partitions : ℕ → W → Bool
  pub partition_of : ℕ → W → Option PartitionNames
  pub target : ℕ → W → ℕ
  pub lun : ℕ → W → ℕ
  pub flush_barrier : ℕ → W → Bool × W
  pub lock_down : ℕ → W → W

-- `BLOCK_DEVICE_FLAG_OPTICAL` and `BLOCK_DEVICE_FLAG_REMOVABLE`
abbrev pub flag_optical : ℕ
flag_optical = 0x04

abbrev pub flag_removable : ℕ
flag_removable = 0x02

-- `VFS_FS_*`
unfoldable pub vfs_type_from_driver : Driver → ℕ
vfs_type_from_driver fat32 = 1
vfs_type_from_driver ntfs = 2
vfs_type_from_driver exfat = 3
vfs_type_from_driver iso9660 = 4
vfs_type_from_driver udf = 5
vfs_type_from_driver ext2 = 6

-- The loop of `vfs_mount_device` over the volumes: a mount point lies below the other.
unfoldable pub overlaps : List ℕ → List Volume → Bool
overlaps mount_point [] = false
overlaps mount_point (v ∷ rest) =
    let later = overlaps mount_point rest in
    if v.valid
      && (path_has_prefix mount_point v.mount_point || path_has_prefix v.mount_point mount_point)
    then true
    else later

-- The first volume that is not in use, of the table from an index on.
unfoldable pub free_volume : ℕ → ℕ → List Volume → ℕ
free_volume count index [] = index
free_volume count index (v ∷ rest) =
    let later = free_volume count (index + 1) rest in
    if leb count index || not v.valid then index else later

-- The loops of `vfs_unmount` and `vfs_remount` to the volume at a mount point.
unfoldable pub volume_at_point : ℕ → List ℕ → List Volume → Option ℕ
volume_at_point index mount_point [] = none
volume_at_point index mount_point (v ∷ rest) =
    let later = volume_at_point (index + 1) mount_point rest in
    if not v.valid || not (strings_equal v.mount_point mount_point) then later else some index

-- The guard on a mount point: it starts with a separator, and is not one of the two.
unfoldable pub may_mount_at : List ℕ → Bool
may_mount_at [] = false
may_mount_at (c ∷ rest) =
    c == slash
    && not (strings_equal (c ∷ rest) (codes "/") || strings_equal (c ∷ rest) (codes "/media"))

-- `(flags & ~(FILESYSTEM_FLAG_READ_ONLY | FILESYSTEM_FLAG_NO_EXEC)) == 0`
abbrev pub are_mount_flags : ℕ → Bool
are_mount_flags flags = bit_and flags 0xfffffffc == 0

abbrev pub has_flag : ℕ → ℕ → Bool
has_flag flags flag = not (bit_and flags flag == 0)

module _ {W : Type 0} (c : Contexts W) (d : Devices W) where
  -- The loop over the devices to the one whose partition has a name.
  unfoldable pub find_by_partition : ℕ → ℕ → List ℕ → W → Option ℕ
  find_by_partition zero index name w = none
  find_by_partition (suc rounds) index name w =
      let later = find_by_partition rounds (index + 1) name w in
      elim (d.partition_of index w) [
        | none ↦ later
        | some p ↦
            if strings_equal p.uuid name || strings_equal p.label name then some index else later
      ]

  unfoldable pub find_device : List ℕ → W → Option ℕ
  find_device name w = elim (d.find name w) [
    | some device ↦ some device
    | none ↦ find_by_partition (d.count w) 0 name w
  ]

  -- What is written of a volume but its mount point.
  unfoldable pub described : ℕ → Driver → Mount → W → List ℕ → Volume
  described device driver m w mount_point =
      let names = d.partition_of device w in
      let device_name = d.name device w in
      record {
        valid = true;
        is_cdrom = has_flag (d.flags device w) flag_optical;
        is_removable = has_flag (d.flags device w) flag_removable;
        read_only = has_flag m.flags flag_read_only;
        no_exec = has_flag m.flags flag_no_exec;
        target = d.target device w;
        lun = d.lun device w;
        fs_type = vfs_type_from_driver driver;
        mount_point = copy_string 32 mount_point;
        label = elim names [
          | none ↦ copy_string 64 device_name
          | some p ↦
              if length p.label == 0 then copy_string 64 device_name else copy_string 64 p.label
        ];
        device_name = copy_string 16 device_name;
        partition_type = elim names [ none ↦ [] | some p ↦ copy_string 24 p.type_name ];
        uuid = elim names [ none ↦ [] | some p ↦ copy_string 37 p.uuid ];
      }

  -- The end of `vfs_mount_device`, with the mount that was made.
  unfoldable pub enter_volume : ℕ → Driver → ℕ → List ℕ → Vfs W → Bool × Vfs W
  enter_volume device driver slot mount_point v =
      let index = free_volume v.volume_count 0 v.volumes in
      if index == max_volumes
      then (false, record v { fs = (filesystem_unmount c slot (v.fs)).1 })
      else (
        true,
        record v {
          volumes =
              set v.volumes index
                (described device driver (mount_at (v.fs) slot) (v.fs.world) mount_point);
          volume_mounts = set v.volume_mounts index (some slot);
          volume_count = if index == v.volume_count then v.volume_count + 1 else v.volume_count;
        },
      )

  -- The middle of `vfs_mount_device`, with the device that was found.
  unfoldable pub mount_found : ℕ → ℕ → List ℕ → Vfs W → Bool × Vfs W
  mount_found device flags mount_point v =
      let (driver, probed) = filesystem_probe c device (v.fs) in
      if filesystem_device_is_mounted (λ i. d.parent i v.fs.world) device (v.fs)
      then (false, v)
      else elim driver [
        | none ↦ (false, record v { fs = probed })
        | some driver' ↦
            let (mount, mounted) = filesystem_mount c device driver' flags probed in
            elim mount [
              | none ↦ (false, record v { fs = mounted })
              | some slot ↦ enter_volume device driver' slot mount_point (record v { fs = mounted })
            ]
      ]

  unfoldable pub vfs_mount_device : List ℕ → List ℕ → ℕ → Vfs W → Bool × Vfs W
  vfs_mount_device device_name mount_point flags v =
      if not (may_mount_at mount_point) || not (are_mount_flags flags)
      then (false, v)
      else if overlaps mount_point (take v.volume_count v.volumes)
      then (false, v)
      else elim (find_device device_name (v.fs.world)) [
        | none ↦ (false, v)
        | some device ↦ mount_found device flags mount_point v
      ]

  -- The part of `vfs_unmount` for the volume that was found.
  unfoldable pub drop_volume : ℕ → Vfs W → Bool × Vfs W
  drop_volume index v = elim (volume_mount v index) [
    | none ↦ (false, v)
    | some slot ↦
        let (done, t) = filesystem_unmount c slot (v.fs) in
        if done
        then (
          true,
          record v {
            volumes = set v.volumes index (record (volume_at v index) { valid = false });
            volume_mounts = set v.volume_mounts index none;
            fs = t;
          },
        )
        else (false, record v { fs = t })
  ]

  unfoldable pub vfs_unmount : List ℕ → Vfs W → Bool × Vfs W
  vfs_unmount mount_point v =
      if strings_equal mount_point (codes "/") || strings_equal mount_point (codes "/system")
      then (false, v)
      else elim (volume_at_point 0 mount_point (take v.volume_count v.volumes)) [
        | none ↦ (false, v)
        | some index ↦ drop_volume index v
      ]

  unfoldable pub vfs_remount : List ℕ → ℕ → Vfs W → Bool × Vfs W
  vfs_remount mount_point flags v =
      if (strings_equal mount_point (codes "/") || strings_equal mount_point (codes "/system"))
        || not (are_mount_flags flags)
      then (false, v)
      else elim (volume_at_point 0 mount_point (take v.volume_count v.volumes)) [
        | none ↦ (false, v)
        | some index ↦
            let snapshot = volume_at v index in
            let (unmounted, v1) = vfs_unmount mount_point v in
            let (remounted, v2) =
              vfs_mount_device snapshot.device_name snapshot.mount_point flags v1 in
            let (_, v3) =
              vfs_mount_device snapshot.device_name snapshot.mount_point
                (if snapshot.read_only then flag_read_only else 0) v2 in
            if not unmounted then (false, v1) else if remounted then (true, v2) else (false, v3)
      ]
