-- ===== src/Vfs/Remount.antt =====
-- `vfs_remount` of src/kernel/vfs.c, and any sequence of mounts, unmounts and remounts.
use asas_os.Common.{
  ℕ, zero, suc, ◌+◌, ◌≡◌, ◌⊎◌, inl, inr, refl, ◌∙◌, ap, true, not, ◌||◌, none, some, List, [], ◌∷◌,
  if◌then◌else◌, arith, Bool-cases, get_or, take,
}
use asas_os.Common.Texts.{codes}
use asas_os.Filesystem.{Contexts, flag_read_only}
use asas_os.Vfs.Paths.{Volume, no_volume, strings_equal}
use asas_os.Vfs.State.{Vfs, volume_at}
use asas_os.Vfs.Volumes.{
  Devices, volume_at_point, are_mount_flags, vfs_mount_device, vfs_unmount, vfs_remount,
}
use asas_os.Vfs.Separate.{in_use}
use asas_os.Vfs.Apart.{IsMounted, if-Mounted, vfs_mount_device-Apart, vfs_unmount-Apart}

-- The search gives a volume in use at the mount point, where there is one.
volume_at_point_lem :
    (start count : ℕ) (mount_point : List ℕ) (l : List Volume)
    → (volume_at_point start mount_point (take count l) ≡ none)
      ⊎ ((k : ℕ) × (volume_at_point start mount_point (take count l) ≡ some (start + k))
          × (in_use count l k ≡ true)
          × (strings_equal (get_or l k no_volume).mount_point mount_point ≡ true))
unfolding volume_at_point
volume_at_point_lem start zero mount_point l = inl refl
volume_at_point_lem start (suc count) mount_point [] = inl refl
volume_at_point_lem start (suc count) mount_point (v ∷ l) =
    elim (Bool-cases (not v.valid || not (strings_equal v.mount_point mount_point))) [
      | inr z ↦
          let e : start ≡ start + 0 = omega arith in
          inr (0, rw (z, volume_at_point) (ap some e), ground arith, ground arith)
      | inl z ↦ elim (volume_at_point_lem (start + 1) count mount_point l) [
        | inl q ↦ inl (rw (z, volume_at_point) q)
        | inr (k, q, u, s) ↦
            let e : start + 1 + k ≡ start + suc k = omega arith in
            inr (suc k, rw (z, volume_at_point) (q ∙ ap some e), ground (arith, u), s)
      ]
    ]

module _ {W : Type 0} (c : Contexts W) (d : Devices W) where
  pub vfs_remount-Apart :
      (mount_point : List ℕ) (flags : ℕ) (v : Vfs W)
      → IsMounted v
      → IsMounted (vfs_remount c d mount_point flags v).1
  unfolding vfs_remount
  vfs_remount-Apart mount_point flags v m =
      if-Mounted
        ((strings_equal mount_point (codes "/") || strings_equal mount_point (codes "/system"))
          || not (are_mount_flags flags))
        _ _ m
        (elim (volume_at_point_lem 0 v.volume_count mount_point v.volumes) [
          | inl z ↦ rw (z, vfs_remount) m
          | inr (k, z, u, _) ↦
              let e : 0 + k ≡ k = omega arith in
              let z' = z ∙ ap some e in
              let (_, s) = m in
              let short = s.short k u in
              let snapshot = volume_at v k in
              let m1 = vfs_unmount-Apart c d mount_point v m in
              let v1 = (vfs_unmount c d mount_point v).1 in
              let m2 =
                vfs_mount_device-Apart c d snapshot.device_name snapshot.mount_point flags v1 short
                  m1 in
              let v2 =
                (vfs_mount_device c d snapshot.device_name snapshot.mount_point flags v1).1 in
              let m3 =
                vfs_mount_device-Apart c d snapshot.device_name snapshot.mount_point
                  (if snapshot.read_only then flag_read_only else 0) v2 short m2 in
              rw (z', vfs_remount)
                (if-Mounted (not (vfs_unmount c d mount_point v).0) _ _ m1 (
                  if-Mounted
                    (vfs_mount_device c d snapshot.device_name snapshot.mount_point flags v1).0 _ _
                    m2 m3))
        ])
