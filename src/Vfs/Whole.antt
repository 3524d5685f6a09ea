-- ===== src/Vfs/Whole.antt =====
-- Any sequence of the calls of src/kernel/vfs.c, with the mounts at start-up and the removal of devices:
-- a mount with an open handle stays.
use asas_os.Common.{
  ℕ, ◌≡◌, inl, inr, true, false, not, ◌||◌, List, if◌then◌else◌, arith, Option-cases, take,
}
use asas_os.Common.Texts.{codes}
use asas_os.Filesystem.{Contexts, flag_read_only, filesystem_unmount}
use asas_os.Filesystem.References.{filesystem_unmount_lem}
use asas_os.Vfs.Paths.{strings_equal}
use asas_os.Vfs.State.{Vfs, Legacy, handle_at, volume_at, volume_mount}
use asas_os.Vfs.Volumes.{
  Devices, volume_at_point, are_mount_flags, drop_volume, vfs_mount_device, vfs_unmount,
  vfs_remount,
}
use asas_os.Vfs.Startup.{vfs_mount_all_volumes, vfs_handle_device_removed}
use asas_os.Vfs.References.{refers, refers-referred}
use asas_os.Vfs.Lifetime.{Agrees, if-Agrees, vfs_open-IsValid, vfs_close-IsValid}
use asas_os.Vfs.Mounts.{filesystem_unmount-IsValid}
use asas_os.Vfs.Entering.{vfs_mount_device_lem}
use asas_os.Vfs.Removal.{vfs_mount_all_volumes-Agrees, vfs_handle_device_removed-Agrees}
use asas_os.Vfs.Reachable.{
  fresh, fresh-Agrees, change_path-Agrees, Step, open_file, close_file, change_file, mount_device,
  unmount, remount,
}

module _ {W : Type 0} (c : Contexts W) (d : Devices W) where
  drop_volume-Agrees : (index : ℕ) (v : Vfs W) → Agrees v → Agrees (drop_volume c d index v).1
  unfolding drop_volume
  drop_volume-Agrees index v a = elim (Option-cases (volume_mount v index)) [
    | inl z ↦ rw (z, drop_volume) a
    | inr (slot, z) ↦
        let a' = filesystem_unmount-IsValid c slot v.handles v.fs a in
        rw (z, drop_volume) (if-Agrees ((filesystem_unmount c slot (v.fs)).0) _ _ a' a')
  ]

  vfs_unmount-Agrees :
      (mount_point : List ℕ) (v : Vfs W) → Agrees v → Agrees (vfs_unmount c d mount_point v).1
  unfolding vfs_unmount
  vfs_unmount-Agrees mount_point v a =
      if-Agrees
        (strings_equal mount_point (codes "/") || strings_equal mount_point (codes "/system")) _ _ a
        (elim (Option-cases (volume_at_point 0 mount_point (take v.volume_count v.volumes))) [
          | inl z ↦ rw (z, vfs_unmount) a
          | inr (index, z) ↦ rw (z, vfs_unmount) (drop_volume-Agrees index v a)
        ])

  vfs_remount-Agrees :
      (mount_point : List ℕ) (flags : ℕ) (v : Vfs W)
      → Agrees v
      → Agrees (vfs_remount c d mount_point flags v).1
  unfolding vfs_remount
  vfs_remount-Agrees mount_point flags v a =
      if-Agrees
        ((strings_equal mount_point (codes "/") || strings_equal mount_point (codes "/system"))
          || not (are_mount_flags flags))
        _ _ a
        (elim (Option-cases (volume_at_point 0 mount_point (take v.volume_count v.volumes))) [
          | inl z ↦ rw (z, vfs_remount) a
          | inr (index, z) ↦
              let snapshot = volume_at v index in
              let v1 = (vfs_unmount c d mount_point v).1 in
              let a1 = vfs_unmount-Agrees mount_point v a in
              let (a2, _) =
                vfs_mount_device_lem c d snapshot.device_name snapshot.mount_point flags v1 a1 in
              let v2 =
                (vfs_mount_device c d snapshot.device_name snapshot.mount_point flags v1).1 in
              let (a3, _) =
                vfs_mount_device_lem c d snapshot.device_name snapshot.mount_point
                  (if snapshot.read_only then flag_read_only else 0) v2 a2 in
              rw (z, vfs_remount)
                (if-Agrees (not (vfs_unmount c d mount_point v).0) _ _ a1 (
                  if-Agrees
                    (vfs_mount_device c d snapshot.device_name snapshot.mount_point flags v1).0 _ _
                    a2 a3))
        ])

  module _ (legacy : Legacy W) where
    -- One call, the mounts at start-up, or the removal of a device.
    pub data Event (v : Vfs W) : Vfs W → Type 0 where
      call : {v' : Vfs W} → Step c legacy d v v' → Event v v'
      mount_all : Event v (vfs_mount_all_volumes d c v).1
      remove_device :
          (device_name : List ℕ) → Event v (vfs_handle_device_removed d c device_name v).1

    pub data History (w : W) : Vfs W → Type 0 where
      start : History w (fresh w)
      later : {v v' : Vfs W} → History w v → Event v v' → History w v'

    Step-Agrees : (v v' : Vfs W) → Agrees v → Step c legacy d v v' → Agrees v'
    Step-Agrees v _ a (open_file path) = vfs_open-IsValid c legacy path v a
    Step-Agrees v _ a (close_file handle) = vfs_close-IsValid handle v a
    Step-Agrees v _ a (change_file change path) = change_path-Agrees c legacy d change path v a
    Step-Agrees v _ a (mount_device name point flags b) =
        (vfs_mount_device_lem c d name point flags v a).0
    Step-Agrees v _ a (unmount point) = vfs_unmount-Agrees point v a
    Step-Agrees v _ a (remount point flags) = vfs_remount-Agrees point flags v a

    Event-Agrees : (v v' : Vfs W) → Agrees v → Event v v' → Agrees v'
    Event-Agrees v v' a (call s) = Step-Agrees v v' a s
    Event-Agrees v _ a mount_all = vfs_mount_all_volumes-Agrees d c v a
    Event-Agrees v _ a (remove_device name) = vfs_handle_device_removed-Agrees d c name v a

    -- After any history each mount has as many references as handles are open on it, and the mount of an
    -- open handle is in use and still the one that was opened.
    pub History-Agrees : (w : W) (v : Vfs W) → History w v → Agrees v
    History-Agrees w _ start = fresh-Agrees c legacy d w
    History-Agrees w _ (later {v} {v'} h e) = Event-Agrees v v' (History-Agrees w v h) e

    -- After any history a mount on which a handle is open cannot be unmounted, and the attempt changes no
    -- mount.
    pub History-unmount :
        (w : W) (v : Vfs W) (k slot : ℕ)
        → History w v
        → refers slot (handle_at v k) ≡ true
        → ((filesystem_unmount c slot (v.fs)).0 ≡ false)
          × ((filesystem_unmount c slot (v.fs)).1.mounts ≡ v.fs.mounts)
    History-unmount w v k slot h q =
        let a = History-Agrees w v h in
        let positive = refers-referred v.handles v.fs k slot a q in
        let (done, either) = filesystem_unmount_lem c slot v.fs a.table in
        elim either [
          | inl (did, _) ↦ absurd (ground (arith, did, positive))
          | inr (did_not, _, same) ↦ (did_not, same)
        ]
