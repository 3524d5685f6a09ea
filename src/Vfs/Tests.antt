-- ===== src/Vfs/Tests.antt =====
-- A disk of src/kernel/vfs.c that is mounted at `/data`, and a file that is opened there.
use asas_os.Common.{
  ℕ, suc, ◌+◌, ◌≡◌, ◌⊎◌, ◌↔◌, refl, true, false, ◌&&◌, none, some, List, [], ◌∷◌, ◌++◌, ltb, ◌==◌,
  arith, get_or, take, length,
}
use asas_os.Common.Texts.{codes}
use asas_os.Filesystem.{
  unlink, fat32, Contexts, mount_at, filesystem_device_is_mounted, is_mounted_in, filesystem_probe,
  probe_from, attach, detach, filesystem_mount, filesystem_unmount, filesystem_stat,
  filesystem_read, filesystem_mount_acquire, free_slot,
}
use asas_os.Filesystem.Slots.{IsValid}
use asas_os.Filesystem.Mounting.{Mounted, filesystem_mount_lem}
use asas_os.Filesystem.References.{is_live, Closed, filesystem_unmount_lem}
use asas_os.Vfs.Paths.{
  is_end, path_has_prefix, strings_equal, copy_string, Volume, no_volume, relative_to, best_from,
}
use asas_os.Vfs.State.{
  Vfs, Legacy, handle_at, volume_at, vfs_select_volume_for_path, vfs_mount_for_path,
  vfs_reset_handles,
}
use asas_os.Vfs.Files.{free_handle, take_handle, open_on, vfs_open, vfs_read}
use asas_os.Vfs.Volumes.{
  Devices, overlaps, free_volume, may_mount_at, find_device, find_by_partition, described,
  enter_volume, mount_found, vfs_mount_device,
}
use asas_os.Vfs.References.{refers}
use asas_os.Vfs.Lifetime.{Agrees}
use asas_os.Vfs.Apart.{IsMounted}
use asas_os.Vfs.Disks.{Names}
use asas_os.Vfs.Resolve.{IsLongest, fits, vfs_select_volume_for_path_lem, path_has_prefix_iff}
use asas_os.Vfs.ByPath.{change_path}
use asas_os.Vfs.Changes.{Reaches, change_path-Reaches}
use asas_os.Vfs.Leads.{vfs_mount_device-leads}
use asas_os.Vfs.ReadBack.{vfs_read-vfs_open}
use asas_os.Vfs.Reset.{vfs_reset_handles-unmount}
use asas_os.Vfs.Reachable.{fresh, open_file, mount_device, Reach, start, later, Reach-IsMounted}
use asas_os.Vfs.Automount.{mount_point_in_use, choose_auto_mount_point}
use asas_os.Vfs.Choice.{choose_auto_mount_point-total}
use asas_os.Vfs.Startup.{vfs_mount_all_volumes}
use asas_os.Vfs.Whole.{call, mount_all, History, History-Agrees, History-unmount}

-- One file of three bytes on every file system; the world counts the changes.
abbrev tiny : Contexts ℕ
tiny = record {
  probe = λ d device w. (true, w);
  create = λ d device w. (device + 1, w);
  destroy = λ d context w. w;
  is_writable = λ d context w. true;
  sync = λ context w. (true, w);
  stat = λ d context path w. some (record { size = 3; is_directory = false; read_only = false });
  read = λ d context path capacity w. take capacity (7 ∷ 8 ∷ 9 ∷ []);
  change = λ d context change w. (true, suc w);
}

abbrev no_legacy : Legacy ℕ
no_legacy = record {
  is_there = λ path w. (false, w);
  read = λ path size w. ([], w);
  change = λ change w. (false, w);
  is_directory = λ path w. false;
  file_size = λ path w. 0;
}

abbrev one_disk : Devices ℕ
one_disk = record {
  count = λ w. 1;
  find = λ name w. some 0;
  name = λ device w. codes "sda";
  flags = λ device w. 0;
  parent = λ device w. none;
  has_partitions = λ device w. false;
  partition_of = λ device w. none;
  target = λ device w. 0;
  lun = λ device w. 0;
  flush_barrier = λ device w. (true, w);
  lock_down = λ device w. w;
}

abbrev disk_name : List ℕ
disk_name = codes "sda"

abbrev data_point : List ℕ
data_point = codes "/data"

abbrev file_path : List ℕ
file_path = codes "/data/a.txt"

abbrev no_disk : Vfs ℕ
no_disk = fresh 0

abbrev with_disk : Vfs ℕ
with_disk = (vfs_mount_device tiny one_disk disk_name data_point 0 no_disk).1

abbrev with_file : Vfs ℕ
with_file = (vfs_open tiny no_legacy file_path with_disk).1

disk-Reach : Reach tiny no_legacy one_disk 0 with_disk
disk-Reach = later start (mount_device disk_name data_point 0 (omega arith))

file-Reach : Reach tiny no_legacy one_disk 0 with_file
file-Reach = later disk-Reach (open_file file_path)

disk_facts :
    ((vfs_mount_device tiny one_disk disk_name data_point 0 no_disk).0 ≡ true)
    × (vfs_mount_for_path file_path with_disk ≡ (some 0, codes "/a.txt"))
    × (is_live with_disk.fs 0 ≡ true)
    × (with_disk.boot_fallback_enabled ≡ false)
    × (path_has_prefix file_path data_point ≡ true)
    × (strings_equal file_path (codes "/welcome.txt") ≡ false)
unfolding vfs_mount_device may_mount_at overlaps find_device find_by_partition mount_found
    enter_volume described free_volume filesystem_probe probe_from filesystem_mount attach
    filesystem_device_is_mounted is_mounted_in free_slot strings_equal path_has_prefix is_end
    copy_string vfs_mount_for_path vfs_select_volume_for_path best_from
disk_facts = (refl, refl, refl, refl, refl, refl)

file_facts :
    ((vfs_open tiny no_legacy file_path with_disk).0 ≡ 2)
    × (refers 0 (handle_at with_file 0) ≡ true)
unfolding vfs_open open_on take_handle free_handle filesystem_stat filesystem_mount_acquire
    vfs_mount_device may_mount_at overlaps find_device find_by_partition mount_found enter_volume
    described free_volume filesystem_probe probe_from filesystem_mount attach
    filesystem_device_is_mounted is_mounted_in free_slot strings_equal path_has_prefix is_end
    copy_string vfs_mount_for_path vfs_select_volume_for_path best_from
file_facts = (refl, refl)

disk-Agrees : Agrees with_disk
disk-Agrees = (Reach-IsMounted tiny no_legacy one_disk 0 with_disk disk-Reach).0

fresh-IsMounted : IsMounted no_disk
fresh-IsMounted = Reach-IsMounted tiny no_legacy one_disk 0 no_disk start

Reach-IsMounted_example : IsMounted with_file
Reach-IsMounted_example = Reach-IsMounted tiny no_legacy one_disk 0 with_file file-Reach

History-Agrees_example : Agrees (vfs_mount_all_volumes one_disk tiny no_disk).1
History-Agrees_example =
    History-Agrees tiny one_disk no_legacy 0 (vfs_mount_all_volumes one_disk tiny no_disk).1
      (History.later History.start mount_all)

History-unmount_example :
    ((filesystem_unmount tiny 0 (with_file.fs)).0 ≡ false)
    × ((filesystem_unmount tiny 0 (with_file.fs)).1.mounts ≡ with_file.fs.mounts)
History-unmount_example =
    History-unmount tiny one_disk no_legacy 0 with_file 0 0
      (History.later
        (History.later History.start (call (mount_device disk_name data_point 0 (omega arith))))
        (call (open_file file_path)))
      file_facts.1

choose_auto_mount_point-total_example :
    (path : List ℕ) × (choose_auto_mount_point false false with_disk.volumes ≡ some path)
    × (mount_point_in_use path with_disk.volumes ≡ false)
choose_auto_mount_point-total_example =
    choose_auto_mount_point-total false false with_disk.volumes (
      let n = (Reach-IsMounted tiny no_legacy one_disk 0 with_disk disk-Reach).1.size in
      omega (arith, n))

vfs_mount_device-leads_example :
    (slot : ℕ) × (vfs_mount_for_path file_path with_disk ≡ (some slot, relative_to 5 file_path))
    × (is_live with_disk.fs slot ≡ true)
vfs_mount_device-leads_example =
    let (done, _, _, _, below, _) = disk_facts in
    vfs_mount_device-leads tiny one_disk disk_name data_point file_path 0 no_disk fresh-IsMounted
      refl (omega arith) done below

vfs_read-vfs_open_example :
    vfs_read tiny no_legacy (vfs_open tiny no_legacy file_path with_disk).0 2 with_file
    ≡ (filesystem_read tiny 0 (codes "/a.txt") 2 (with_disk.fs), with_file)
vfs_read-vfs_open_example =
    let (_, leads, _, on_disk, _, other) = disk_facts in
    vfs_read-vfs_open tiny no_legacy file_path (codes "/a.txt") 0 2 with_disk disk-Agrees on_disk
      other (omega arith) leads (λ q. absurd (omega (arith, file_facts.0, q)))

vfs_reset_handles-unmount_example :
    (filesystem_unmount tiny 0 (vfs_reset_handles with_disk).fs).0
    ≡ (detach tiny
        (mount_at (vfs_reset_handles with_disk).fs 0)
        (vfs_reset_handles with_disk).fs.world).0
vfs_reset_handles-unmount_example =
    let (_, _, live, _, _, _) = disk_facts in
    vfs_reset_handles-unmount tiny 0 with_disk disk-Agrees live

path_has_prefix_iff_example :
    (path_has_prefix file_path data_point ≡ true)
    ↔ ((rest : List ℕ) × (file_path ≡ data_point ++ rest) × (is_end rest ≡ true))
path_has_prefix_iff_example = path_has_prefix_iff file_path data_point

abbrev disk_volumes : List Volume
disk_volumes = take with_disk.volume_count with_disk.volumes

vfs_select_volume_for_path_lem_example :
    ((i : ℕ) × IsLongest file_path disk_volumes i
      × (vfs_select_volume_for_path file_path with_disk
          ≡ some (i, relative_to (length (get_or disk_volumes i no_volume).mount_point) file_path)))
    ⊎ (((j : ℕ) → fits file_path (get_or disk_volumes j no_volume) ≡ false)
        × (((i : ℕ) × Names file_path i
              × ((ltb i with_disk.volume_count && (volume_at with_disk i).valid) ≡ true)
              × (vfs_select_volume_for_path file_path with_disk
                  ≡ some (i, relative_to 6 file_path)))
            ⊎ ((vfs_select_volume_for_path file_path with_disk ≡ none)
                × ((i : ℕ)
                    → (¬ Names file_path i)
                      ⊎ ((ltb i with_disk.volume_count && (volume_at with_disk i).valid)
                          ≡ false)))))
vfs_select_volume_for_path_lem_example = vfs_select_volume_for_path_lem file_path with_disk

filesystem_mount_lem_example :
    IsValid (filesystem_mount tiny 0 fat32 0 (with_disk.fs)).1
    × ((((filesystem_mount tiny 0 fat32 0 (with_disk.fs)).0 ≡ none)
          × ((k : ℕ)
              → (mount_at (filesystem_mount tiny 0 fat32 0 (with_disk.fs)).1 k
                  ≡ mount_at (with_disk.fs) k)
                ⊎ (((mount_at (with_disk.fs) k).active ≡ false)
                    × ((mount_at (filesystem_mount tiny 0 fat32 0 (with_disk.fs)).1 k).active
                        ≡ false)
                    × ((mount_at
                          (filesystem_mount tiny 0 fat32 0 (with_disk.fs)).1
                          k).reference_count
                        ≡ 0))))
        ⊎ ((slot : ℕ) × ((filesystem_mount tiny 0 fat32 0 (with_disk.fs)).0 ≡ some slot)
            × Mounted with_disk.fs 0 fat32 slot (filesystem_mount tiny 0 fat32 0 (with_disk.fs)).1))
filesystem_mount_lem_example = filesystem_mount_lem tiny 0 fat32 0 with_disk.fs disk-Agrees.table

filesystem_unmount_lem_example :
    ((filesystem_unmount tiny 0 (with_disk.fs)).0 ≡ (
      (is_live with_disk.fs 0 && (mount_at (with_disk.fs) 0).reference_count == 0)
      && (detach tiny (mount_at (with_disk.fs) 0) with_disk.fs.world).0))
    × ((((filesystem_unmount tiny 0 (with_disk.fs)).0 ≡ true)
          × Closed with_disk.fs 0 (filesystem_unmount tiny 0 (with_disk.fs)).1)
        ⊎ (((filesystem_unmount tiny 0 (with_disk.fs)).0 ≡ false)
            × IsValid (filesystem_unmount tiny 0 (with_disk.fs)).1
            × ((filesystem_unmount tiny 0 (with_disk.fs)).1.mounts ≡ with_disk.fs.mounts)))
filesystem_unmount_lem_example = filesystem_unmount_lem tiny 0 with_disk.fs disk-Agrees.table

change_path-Reaches_example :
    Reaches 0 with_disk (change_path tiny no_legacy unlink file_path with_disk)
change_path-Reaches_example =
    change_path-Reaches tiny no_legacy unlink file_path (codes "/a.txt") 0 with_disk disk_facts.1
