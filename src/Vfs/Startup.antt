-- ===== src/Vfs/Startup.antt =====
-- `vfs_mount_all_volumes` of src/kernel/vfs.c, which mounts every device that holds a file system, and
-- `vfs_handle_device_removed`. The last call of the first, `vfs_select_primary`, is part of `Legacy`.
use Prim.Native.Nat.{bit_or}
use asas_os.Common.{
  ℕ, zero, suc, ◌+◌, Bool, true, false, ◌&&◌, ◌||◌, Option, none, some, List, [], ◌==◌,
  if◌then◌else◌, take, length, set,
}
use asas_os.Common.Texts.{codes}
use asas_os.Filesystem.{
  Driver, Mount, Contexts, mount_at, put_mount, flag_read_only, flag_no_exec,
  filesystem_device_is_mounted, filesystem_probe, filesystem_mount, filesystem_unmount,
}
use asas_os.Vfs.Paths.{copy_string, Volume}
use asas_os.Vfs.State.{Vfs, max_volumes, volume_at, volume_mount}
use asas_os.Vfs.Volumes.{
  Devices, flag_optical, flag_removable, has_flag, free_volume, vfs_type_from_driver,
}
use asas_os.Vfs.Automount.{choose_auto_mount_point}

-- `BLOCK_DEVICE_FLAG_READ_ONLY`
abbrev pub device_read_only : ℕ
device_read_only = 0x01

module _ {W : Type 0} (d : Devices W) where
  -- The mount point of a volume that is not the first. The volume is marked as valid before, so that
  -- the mount point it had still counts as in use.
  unfoldable pub chosen_point : ℕ → ℕ → Vfs W → List ℕ
  chosen_point device index v =
      let flags = d.flags device (v.fs.world) in
      let marked = set v.volumes index (record (volume_at v index) { valid = true }) in
      elim (choose_auto_mount_point (has_flag flags flag_optical) (has_flag flags flag_removable)
        (take v.volume_count marked)) [ none ↦ [] | some path ↦ copy_string 32 path ]

  unfoldable pub chosen_label : ℕ → ℕ → W → List ℕ
  chosen_label device index w =
      let fallback = if index == 0 then codes "System" else d.name device w in
      elim (d.partition_of device w) [
        | none ↦ copy_string 64 fallback
        | some p ↦ if length p.label == 0 then copy_string 64 fallback else copy_string 64 p.label
      ]

  -- The volume that is written for a device.
  unfoldable pub automatic : ℕ → Driver → Mount → ℕ → Vfs W → Volume
  automatic device driver m index v =
      let w = v.fs.world in
      record {
        valid = true;
        is_cdrom = has_flag (d.flags device w) flag_optical;
        is_removable = has_flag (d.flags device w) flag_removable;
        read_only = has_flag m.flags flag_read_only || has_flag (d.flags device w) device_read_only;
        no_exec = has_flag m.flags flag_no_exec;
        target = d.target device w;
        lun = d.lun device w;
        fs_type = vfs_type_from_driver driver;
        mount_point = if index == 0 then codes "/system" else chosen_point device index v;
        label = chosen_label device index w;
        device_name = copy_string 16 (d.name device w);
        partition_type = elim (d.partition_of device w) [
          | none ↦ []
          | some p ↦ copy_string 24 p.type_name
        ];
        uuid = elim (d.partition_of device w) [ none ↦ [] | some p ↦ copy_string 37 p.uuid ];
      }

  -- A mount is on the device, or on a partition of it.
  unfoldable pub is_on : ℕ → Option ℕ → W → Bool
  is_on device none w = false
  is_on device (some mounted) w =
      mounted == device || elim (d.parent mounted w) [ none ↦ false | some p ↦ p == device ]

  module _ (c : Contexts W) where
    -- The end of one round of the loop; whether it is left.
    unfoldable pub enter_automatic : ℕ → Driver → ℕ → Vfs W → Bool × Vfs W
    enter_automatic device driver slot v =
        let index = free_volume v.volume_count 0 v.volumes in
        if index == max_volumes
        then (true, record v { fs = (filesystem_unmount c slot (v.fs)).1 })
        else (
          false,
          record v {
            volumes = set v.volumes index (automatic device driver (mount_at (v.fs) slot) index v);
            volume_mounts = set v.volume_mounts index (some slot);
            volume_count = if index == v.volume_count then v.volume_count + 1 else v.volume_count;
          },
        )

    -- One round of the loop.
    unfoldable pub mount_one : ℕ → Vfs W → Bool × Vfs W
    mount_one device v =
        let (driver, probed) = filesystem_probe c device (v.fs) in
        let whole : Bool = elim (d.parent device (v.fs.world)) [ none ↦ true | some p ↦ false ] in
        if filesystem_device_is_mounted (λ i. d.parent i v.fs.world) device (v.fs)
        then (false, v)
        else if whole && d.has_partitions device (v.fs.world)
        then (false, v)
        else elim driver [
          | none ↦ (false, record v { fs = probed })
          | some driver' ↦
              let (mount, mounted) = filesystem_mount c device driver' 0 probed in
              elim mount [
                | none ↦ (false, record v { fs = mounted })
                | some slot ↦ enter_automatic device driver' slot (record v { fs = mounted })
              ]
        ]

    unfoldable pub mount_from : ℕ → ℕ → Vfs W → Vfs W
    mount_from zero device v = v
    mount_from (suc rounds) device v =
        let (stop, v') = mount_one device v in
        let later = mount_from rounds (device + 1) v' in if stop then v' else later

    unfoldable pub vfs_mount_all_volumes : Vfs W → ℕ × Vfs W
    vfs_mount_all_volumes v =
        let v' = mount_from (d.count (v.fs.world)) 0 v in (v'.volume_count, v')

    -- The mount of a volume on a device that was removed: it is locked, flushed, and unmounted where
    -- nothing refers to it.
    unfoldable pub lock_volume : ℕ → ℕ → Vfs W → Vfs W
    lock_volume index slot v =
        let m = mount_at (v.fs) slot in
        let locked =
          put_mount (v.fs) slot
            (record m { flags = bit_or m.flags (bit_or flag_read_only flag_no_exec) }) in
        let flushed = record locked {
          world = elim m.device [
            | none ↦ locked.world
            | some mounted ↦ (d.flush_barrier mounted (locked.world)).1
          ];
        } in
        let (unmounted, t) = filesystem_unmount c slot flushed in
        let volume = record (volume_at v index) { read_only = true; no_exec = true } in
        if m.reference_count == 0 && unmounted
        then record v {
          volumes = set v.volumes index (record volume { valid = false });
          volume_mounts = set v.volume_mounts index none;
          fs = t;
        }
        else record v {
          volumes = set v.volumes index volume;
          fs = if m.reference_count == 0 then t else flushed;
        }

    -- The loop of `vfs_handle_device_removed`, with the number of volumes that it met.
    unfoldable pub lock_from : ℕ → ℕ → ℕ → Vfs W → ℕ × Vfs W
    lock_from zero index device v = (0, v)
    lock_from (suc rounds) index device v = elim (volume_mount v index) [
      | none ↦ lock_from rounds (index + 1) device v
      | some slot ↦
          let (met, v') = lock_from rounds (index + 1) device (lock_volume index slot v) in
          let later = lock_from rounds (index + 1) device v in
          if (volume_at v index).valid && is_on device (mount_at (v.fs) slot).device (v.fs.world)
          then (met + 1, v')
          else later
    ]

    unfoldable pub vfs_handle_device_removed : List ℕ → Vfs W → ℕ × Vfs W
    vfs_handle_device_removed name v = elim (d.find name (v.fs.world)) [
      | none ↦ (0, v)
      | some device ↦
          let (met, v') = lock_from v.volume_count 0 device v in
          if length name == 0
          then (0, v)
          else (met, record v' { fs = record (v'.fs) { world = d.lock_down device (v'.fs.world) } })
    ]
