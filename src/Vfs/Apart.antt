-- ===== src/Vfs/Apart.antt =====
-- Mounting and unmounting at a path in src/kernel/vfs.c keep mount points apart.
use asas_os.Common.{
  ℕ, ◌≤◌, ◌<◌, ◌≡◌, inl, inr, sym, ◌∙◌, Bool, true, false, ◌||◌, List, if◌then◌else◌, arith,
  Bool-cases, Option-cases, take, length, take-whole,
}
use mathlib.Core.Path.{subst}
use asas_os.Common.Texts.{codes}
use asas_os.Filesystem.{Contexts, filesystem_unmount}
use asas_os.Vfs.Paths.{copy_string, strings_equal}
use asas_os.Vfs.State.{Vfs, max_volumes, volume_mount}
use asas_os.Vfs.Volumes.{
  Devices, overlaps, volume_at_point, drop_volume, vfs_mount_device, vfs_unmount,
}
use asas_os.Vfs.Lifetime.{Agrees}
use asas_os.Vfs.Mounts.{filesystem_unmount-IsValid}
use asas_os.Vfs.Entering.{SameVolumes, Entered, vfs_mount_device_lem}
use asas_os.Vfs.Separate.{
  in_use, IsSeparate, overlaps_lem, free_volume_lem, written-IsSeparate, dropped-IsSeparate,
}

module _ {W : Type 0} where
  abbrev pub Apart : Vfs W → Type 0
  Apart v = IsSeparate v.volume_count v.volumes

  pub SameVolumes-Apart : (v v' : Vfs W) → SameVolumes v v' → Apart v → Apart v'
  SameVolumes-Apart v v' e s = rw (e.volumes, e.volume_count) s

  -- The index of a volume that was entered.
  pub Entered-index :
      (mount_point : List ℕ) (v v' : Vfs W)
      → (e : Entered mount_point v v') → Apart v
      → (e.index ≤ v.volume_count)
        × (e.index < max_volumes)
        × (in_use v.volume_count v.volumes e.index ≡ false)
  Entered-index mount_point v v' e s =
      let (k, q, le, u) =
        free_volume_lem v.volume_count 0 v.volumes (omega arith)
          (omega (arith, s.size, s.counted)) in
      let here : e.index ≡ k = omega (arith, e.unused, q) in
      (
        omega arith,
        omega (arith, s.counted, e.bound),
        subst (λ i. in_use v.volume_count v.volumes i ≡ false) (sym here) (ground (arith, u)),
      )

  Entered-Apart :
      (mount_point : List ℕ) (v v' : Vfs W)
      → length mount_point < 32
      → overlaps mount_point (take v.volume_count v.volumes) ≡ false
      → Entered mount_point v v'
      → Apart v
      → Apart v'
  unfolding copy_string
  Entered-Apart mount_point v v' b q e s =
      let whole : e.volume.mount_point ≡ mount_point =
        e.at_point ∙ take-whole 31 mount_point (omega arith) in
      let (le, lt, unused) = Entered-index mount_point v v' e s in
      rw e.volumes (
        written-IsSeparate v.volume_count v'.volume_count e.index v.volumes e.volume s lt
          e.volume_count le unused (rw whole b)
          (rw whole (overlaps_lem mount_point v.volume_count v.volumes q)))

  -- A mount, an unmount and a remount keep handles and references in agreement, and mount points apart;
  -- the mount point of a mount must fit into its buffer.
  abbrev pub IsMounted : Vfs W → Type 0
  IsMounted v = Agrees v × Apart v

  pub if-Mounted :
      (b : Bool) (x y : Bool × Vfs W)
      → IsMounted x.1
      → IsMounted y.1
      → IsMounted (if b then x else y).1
  if-Mounted true x y m _ = m
  if-Mounted false x y _ m = m

  module _ (c : Contexts W) (d : Devices W) where
    pub vfs_mount_device-Apart :
        (device_name mount_point : List ℕ) (flags : ℕ) (v : Vfs W)
        → length mount_point < 32
        → IsMounted v
        → IsMounted (vfs_mount_device c d device_name mount_point flags v).1
    vfs_mount_device-Apart device_name mount_point flags v b m =
        let (a, s) = m in
        let (a', either) = vfs_mount_device_lem c d device_name mount_point flags v a in
        elim either [
          | inl (_, e) ↦ (a', SameVolumes-Apart v _ e s)
          | inr (_, q, e) ↦ (a', Entered-Apart mount_point v _ b q e s)
        ]

    drop_volume-Apart :
        (index : ℕ) (v : Vfs W) → IsMounted v → IsMounted (drop_volume c d index v).1
    unfolding drop_volume
    drop_volume-Apart index v m =
        let (a, s) = m in
        elim (Option-cases (volume_mount v index)) [
          | inl z ↦ rw (z, drop_volume) m
          | inr (slot, z) ↦
              let a' = filesystem_unmount-IsValid c slot v.handles v.fs a in
              elim (Bool-cases ((filesystem_unmount c slot (v.fs)).0)) [
                | inl y ↦
                    rw (z, y, drop_volume) (a', dropped-IsSeparate v.volume_count index v.volumes s)
                | inr y ↦ rw (z, y, drop_volume) (a', s)
              ]
        ]

    pub vfs_unmount-Apart :
        (mount_point : List ℕ) (v : Vfs W)
        → IsMounted v
        → IsMounted (vfs_unmount c d mount_point v).1
    unfolding vfs_unmount
    vfs_unmount-Apart mount_point v m =
        if-Mounted
          (strings_equal mount_point (codes "/") || strings_equal mount_point (codes "/system")) _ _
          m
          (elim (Option-cases (volume_at_point 0 mount_point (take v.volume_count v.volumes))) [
            | inl z ↦ rw (z, vfs_unmount) m
            | inr (index, z) ↦ rw (z, vfs_unmount) (drop_volume-Apart index v m)
          ])
