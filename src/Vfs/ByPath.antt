-- ===== src/Vfs/ByPath.antt =====
-- The operations of src/kernel/vfs.c on a path.
use Prim.Native.Nat.{bit_and}
use asas_os.Common.{
  ℕ, Bool, true, false, ◌&&◌, ◌||◌, none, some, List, [], ◌∷◌, ◌==◌, if◌then◌else◌, length,
}
use asas_os.Common.Texts.{codes}
use asas_os.Filesystem.{
  Contexts, Change, write, unlink, mkdir, rmdir, rename, mount_at, flag_no_exec, filesystem_stat,
  filesystem_change,
}
use asas_os.Vfs.Paths.{strings_equal, paths_equal}
use asas_os.Vfs.State.{Vfs, Legacy, Node, welcome, vfs_mount_for_path}

-- The loops over the boot nodes: whether one has the path, and its size.
unfoldable pub has_node : List ℕ → List Node → Bool
has_node path [] = false
has_node path (n ∷ rest) = if paths_equal path n.path then true else has_node path rest

unfoldable pub node_size : List ℕ → List Node → ℕ
node_size path [] = 0
node_size path (n ∷ rest) = if paths_equal path n.path then length n.bytes else node_size path rest

module _ {W : Type 0} (c : Contexts W) (legacy : Legacy W) where
  -- The four operations that change one path share their form; `change` is made of the path that the
  -- driver gets.
  unfoldable pub change_path : (List ℕ → Change) → List ℕ → Vfs W → Bool × Vfs W
  change_path change path v =
      let (mount, relative) = vfs_mount_for_path path v in
      if v.boot_fallback_enabled then (false, v) else elim mount [
        | some slot ↦
            let (done, t) = filesystem_change c slot (change relative) (v.fs) in
            (done, record v { fs = t })
        | none ↦
            let (done, w) = legacy.change (change path) (v.fs.world) in
            (done, record v { fs = record (v.fs) { world = w } })
      ]

  unfoldable pub vfs_write_file : List ℕ → List ℕ → Vfs W → Bool × Vfs W
  vfs_write_file path bytes v = change_path (λ p. write p bytes) path v

  unfoldable pub vfs_delete_file : List ℕ → Vfs W → Bool × Vfs W
  vfs_delete_file path v = change_path unlink path v

  unfoldable pub vfs_create_directory : List ℕ → Vfs W → Bool × Vfs W
  vfs_create_directory path v = change_path mkdir path v

  unfoldable pub vfs_delete_directory : List ℕ → Vfs W → Bool × Vfs W
  vfs_delete_directory path v = change_path rmdir path v

  unfoldable pub vfs_rename : List ℕ → List ℕ → Vfs W → Bool × Vfs W
  vfs_rename source destination v =
      let (mount, from) = vfs_mount_for_path source v in
      let (other, to) = vfs_mount_for_path destination v in
      elim mount [
        | none ↦ (false, v)
        | some slot ↦
            if elim other [ none ↦ false | some slot' ↦ slot' == slot ]
            then (let (done, t) = filesystem_change c slot (rename from to) (v.fs) in
                (done, record v { fs = t }))
            else (false, v)
      ]

  unfoldable pub vfs_can_execute : List ℕ → Vfs W → Bool
  vfs_can_execute path v =
      let (mount, _) = vfs_mount_for_path path v in
      if v.boot_fallback_enabled then true else elim mount [
        | none ↦ false
        | some slot ↦ bit_and (mount_at (v.fs) slot).flags flag_no_exec == 0
      ]

  unfoldable pub vfs_is_directory : List ℕ → Vfs W → Bool
  vfs_is_directory path v =
      let (mount, relative) = vfs_mount_for_path path v in
      if v.boot_fallback_enabled
      then paths_equal path (codes "/")
        || (paths_equal path (codes "/ASAS") && has_node (codes "/ASAS/README.TXT") v.boot_nodes)
      else if strings_equal path (codes "/media")
      then true
      else elim mount [
        | some slot ↦ elim (filesystem_stat c slot relative (v.fs)) [
          | none ↦ false
          | some stat ↦ stat.is_directory
        ]
        | none ↦ legacy.is_directory path (v.fs.world)
      ]

  unfoldable pub vfs_file_size : List ℕ → Vfs W → ℕ
  vfs_file_size path v =
      let (mount, relative) = vfs_mount_for_path path v in
      if v.boot_fallback_enabled
      then (if strings_equal path welcome.path
          then length (welcome.bytes)
          else node_size path v.boot_nodes)
      else elim mount [
        | some slot ↦ elim (filesystem_stat c slot relative (v.fs)) [
          | none ↦ 0
          | some stat ↦ if stat.is_directory then 0 else stat.size
        ]
        | none ↦ legacy.file_size path (v.fs.world)
      ]
