-- ===== src/Vfs/Kept.antt =====
-- Opening, closing and changing files in src/kernel/vfs.c leave the table of volumes.
use asas_os.Common.{
  ℕ, refl, inl, inr, Bool, true, false, ◌||◌, Option, none, some, List, ltb, ◌==◌, if◌then◌else◌,
  Option-cases,
}
use asas_os.Filesystem.{Contexts, Change, filesystem_stat, filesystem_mount_acquire}
use asas_os.Vfs.Paths.{strings_equal}
use asas_os.Vfs.State.{Vfs, Legacy, welcome, handle_count, vfs_mount_for_path}
use asas_os.Vfs.Files.{free_handle, take_handle, is_open, is_boot, open_on, vfs_open, vfs_close}
use asas_os.Vfs.ByPath.{change_path}
use asas_os.Vfs.Entering.{SameVolumes}

module _ {W : Type 0} where
  if-SameVolumes :
      {A : Type 0} (v : Vfs W) (b : Bool) (x y : A × Vfs W)
      → SameVolumes v x.1
      → SameVolumes v y.1
      → SameVolumes v (if b then x else y).1
  if-SameVolumes v true x y s _ = s
  if-SameVolumes v false x y _ s = s

  same : (v : Vfs W) → SameVolumes v v
  same v = record { volumes = refl; volume_mounts = refl; volume_count = refl }

  take_handle-SameVolumes :
      (path : List ℕ) (mount : Option ℕ) (v u : Vfs W)
      → SameVolumes u v
      → SameVolumes u (take_handle path mount v).1
  unfolding take_handle
  take_handle-SameVolumes path none v u s =
      if-SameVolumes u (ltb (free_handle 0 v.handles) handle_count) _ _
        (record {
          volumes = s.volumes;
          volume_mounts = s.volume_mounts;
          volume_count = s.volume_count;
        })
        s
  take_handle-SameVolumes path (some slot) v u s =
      if-SameVolumes u (ltb (free_handle 0 v.handles) handle_count) _ _
        (record {
          volumes = s.volumes;
          volume_mounts = s.volume_mounts;
          volume_count = s.volume_count;
        })
        (record {
          volumes = s.volumes;
          volume_mounts = s.volume_mounts;
          volume_count = s.volume_count;
        })

  module _ (c : Contexts W) (legacy : Legacy W) where
    open_on-SameVolumes :
        (path : List ℕ) (mount : Option ℕ) (relative : List ℕ) (v : Vfs W)
        → SameVolumes v (open_on c legacy path mount relative v).1
    unfolding open_on
    open_on-SameVolumes path none relative v =
        if-SameVolumes v (legacy.is_there path v.fs.world).0 _ _
          (take_handle-SameVolumes path none _ v
            (record { volumes = refl; volume_mounts = refl; volume_count = refl }))
          (record { volumes = refl; volume_mounts = refl; volume_count = refl })
    open_on-SameVolumes path (some slot) relative v =
        elim (Option-cases (filesystem_stat c slot relative (v.fs))) [
          | inl z ↦ rw (z, open_on) (same v)
          | inr (stat, z) ↦
              rw (z, open_on)
                (if-SameVolumes v stat.is_directory _ _ (same v) (
                  if-SameVolumes v (filesystem_mount_acquire slot (v.fs)).0 _ _
                    (take_handle-SameVolumes path (some slot) _ v
                      (record { volumes = refl; volume_mounts = refl; volume_count = refl }))
                    (same v)))
        ]

    pub vfs_open-SameVolumes :
        (path : List ℕ) (v : Vfs W) → SameVolumes v (vfs_open c legacy path v).1
    unfolding vfs_open
    vfs_open-SameVolumes path v =
        let (mount, relative) = vfs_mount_for_path path v in
        if-SameVolumes v (strings_equal path welcome.path) _ _ (same v) (
          if-SameVolumes v v.boot_fallback_enabled _ _ (same v)
            (open_on-SameVolumes path mount relative v))

    pub change_path-SameVolumes :
        (change : List ℕ → Change) (path : List ℕ) (v : Vfs W)
        → SameVolumes v (change_path c legacy change path v).1
    unfolding change_path
    change_path-SameVolumes change path v =
        if-SameVolumes v v.boot_fallback_enabled (false, v) _ (same v)
          (elim (Option-cases ((vfs_mount_for_path path v).0)) [
            | inl z ↦
                rw (z, change_path)
                  (record { volumes = refl; volume_mounts = refl; volume_count = refl })
            | inr (slot, z) ↦
                rw (z, change_path)
                  (record { volumes = refl; volume_mounts = refl; volume_count = refl })
          ])

  pub vfs_close-SameVolumes : (handle : ℕ) (v : Vfs W) → SameVolumes v (vfs_close handle v).1
  unfolding vfs_close
  vfs_close-SameVolumes handle v = if-SameVolumes v (handle == 1 || is_boot handle v) _ _ (same v) (
      if-SameVolumes v (is_open handle v) _ _
        (record { volumes = refl; volume_mounts = refl; volume_count = refl }) (same v))
