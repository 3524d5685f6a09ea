-- ===== src/Vfs/State.antt =====
-- The state of src/kernel/vfs.c, and the mount that a path leads to. The block devices, and the file
-- systems that are used where nothing is mounted, are behind `Devices` and `Legacy`, on the world of
-- the mounts. A pointer to a mount is its slot. The calls are taken one after the other: `vfs_lock` is
-- left out, outside which `vfs_open` of the source looks the file up and acquires its mount.
use asas_os.Common.{
  ℕ, Bool, true, false, ◌&&◌, Option, none, some, List, [], ◌∷◌, ltb, if◌then◌else◌, take, get_or,
}
use asas_os.Common.Texts.{codes}
use asas_os.Filesystem.{Table, Change, filesystem_mount_release}
use asas_os.Vfs.Paths.{Volume, no_volume, path_has_prefix, best_from, disk_alias, relative_to}

abbrev pub handle_count : ℕ
handle_count = 8

abbrev pub max_volumes : ℕ
max_volumes = 8

abbrev pub path_capacity : ℕ
path_capacity = 64

abbrev pub boot_handle_base : ℕ
boot_handle_base = 100

-- `VFS_NODE`
pub record Node : Type 0 where
  pub path : List ℕ
  pub bytes : List ℕ

-- `VFS_DISK_HANDLE`
pub record Handle : Type 0 where
  pub path : List ℕ
  pub mount : Option ℕ
  pub mount_generation : ℕ
  pub used : Bool

abbrev pub no_handle : Handle
no_handle = record { path = []; mount = none; mount_generation = 0; used = false }

-- The file systems of `active_fs`, once `vfs_select_primary` has chosen their device.
pub record Legacy (W : Type 0) : Type 0 where
  pub is_there : List ℕ → W → Bool × W
  pub read : List ℕ → ℕ → W → List ℕ × W
  pub change : Change → W → Bool × W
  pub is_directory : List ℕ → W → Bool
  pub file_size : List ℕ → W → ℕ

-- The static variables, with the table of mounts.
pub record Vfs (W : Type 0) : Type 0 where
  pub boot_nodes : List Node
  pub handles : List Handle
  pub boot_fallback_enabled : Bool
  pub volumes : List Volume
  pub volume_mounts : List (Option ℕ)
  pub volume_count : ℕ
  pub fs : Table W

-- `nodes[0]`
abbrev pub welcome : Node
welcome = record { path = codes "/welcome.txt"; bytes = codes "Asas OS virtual filesystem" }

module _ {W : Type 0} where
  abbrev pub volume_at : Vfs W → ℕ → Volume
  volume_at v index = get_or v.volumes index no_volume

  abbrev pub volume_mount : Vfs W → ℕ → Option ℕ
  volume_mount v index = get_or v.volume_mounts index none

  abbrev pub handle_at : Vfs W → ℕ → Handle
  handle_at v index = get_or v.handles index no_handle

  -- The number of a volume, and the path on it.
  unfoldable pub vfs_select_volume_for_path : List ℕ → Vfs W → Option (ℕ × List ℕ)
  vfs_select_volume_for_path path v =
      let (best, best_length) = best_from path 0 (take v.volume_count v.volumes) none 0 in
      elim best [
        | some index ↦ some (index, relative_to best_length path)
        | none ↦ elim (disk_alias path) [
          | none ↦ none
          | some (index, rest) ↦
              if ltb index v.volume_count && (volume_at v index).valid
              then some (index, rest)
              else none
        ]
      ]

  -- The mount, which may be null, and the path that its driver gets.
  unfoldable pub vfs_mount_for_path : List ℕ → Vfs W → Option ℕ × List ℕ
  vfs_mount_for_path path v = elim (vfs_select_volume_for_path path v) [
    | some (index, rest) ↦ (volume_mount v index, rest)
    | none ↦
        if path_has_prefix path (codes "/system") && ltb 0 v.volume_count
        then (volume_mount v 0, relative_to 7 path)
        else (if ltb 0 v.volume_count then volume_mount v 0 else none, path)
  ]

  -- The loop of `vfs_reset_handles`.
  unfoldable pub reset_from : List Handle → Table W → List Handle × Table W
  reset_from [] t = ([], t)
  reset_from (h ∷ rest) t =
      let t' =
        if h.used
        then elim h.mount [ none ↦ t | some slot ↦ filesystem_mount_release slot t ]
        else t in
      let (rest', t'') = reset_from rest t' in (no_handle ∷ rest', t'')

  unfoldable pub vfs_reset_handles : Vfs W → Vfs W
  vfs_reset_handles v =
      let (handles, t) = reset_from v.handles v.fs in record v { handles = handles; fs = t }

  unfoldable pub vfs_initialize_boot_fallback : Vfs W → Vfs W
  vfs_initialize_boot_fallback v = record (vfs_reset_handles v) { boot_fallback_enabled = true }
