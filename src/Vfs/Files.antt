-- ===== src/Vfs/Files.antt =====
-- Files by handle and by path in src/kernel/vfs.c. A handle is a number: 1 is the welcome text, 2 to 9
-- are the files on disk, and those from 100 on the files that the boot loader left in memory.
use asas_os.Common.{
  ℕ, ◌+◌, ◌-◌, Bool, true, false, not, ◌&&◌, ◌||◌, Option, none, some, List, [], ◌∷◌, ltb, leb,
  ◌==◌, if◌then◌else◌, take, length, get_or, set,
}
use asas_os.Filesystem.{
  Contexts, mount_at, filesystem_stat, filesystem_read, filesystem_mount_acquire,
  filesystem_mount_release,
}
use asas_os.Vfs.Paths.{strings_equal, paths_equal, copy_string}
use asas_os.Vfs.State.{
  Vfs, Legacy, Node, Handle, welcome, handle_at, handle_count, path_capacity, boot_handle_base,
  vfs_mount_for_path,
}

-- The loop of `vfs_open` over the boot nodes: the handle, or 0.
unfoldable pub boot_handle : List ℕ → ℕ → List Node → ℕ
boot_handle path index [] = 0
boot_handle path index (n ∷ rest) =
    let later = boot_handle path (index + 1) rest in
    if paths_equal path n.path then boot_handle_base + index else later

-- The first handle that is not in use, or the end of the table.
unfoldable pub free_handle : ℕ → List Handle → ℕ
free_handle index [] = index
free_handle index (h ∷ rest) =
    let later = free_handle (index + 1) rest in if not h.used then index else later

module _ {W : Type 0} where
  -- The end of `vfs_open`, once the mount was acquired.
  unfoldable pub take_handle : List ℕ → Option ℕ → Vfs W → ℕ × Vfs W
  take_handle path mount v =
      let index = free_handle 0 v.handles in
      if ltb index handle_count
      then (
        index + 2,
        record v {
          handles = set v.handles index (record {
            path = copy_string path_capacity path;
            mount = mount;
            mount_generation = elim mount [
              | none ↦ 0
              | some slot ↦ (mount_at (v.fs) slot).generation
            ];
            used = true;
          });
        },
      )
      else (
        0,
        elim mount [ none ↦ v | some slot ↦ record v { fs = filesystem_mount_release slot v.fs } ],
      )

  -- `handle >= 2 && handle < VFS_DISK_HANDLE_COUNT + 2 && disk_handles[handle - 2].used`
  abbrev pub is_open : ℕ → Vfs W → Bool
  is_open handle v =
      (leb 2 handle && ltb handle (handle_count + 2)) && (handle_at v (handle - 2)).used

  abbrev pub is_boot : ℕ → Vfs W → Bool
  is_boot handle v =
      leb boot_handle_base handle && ltb handle (boot_handle_base + length v.boot_nodes)

  unfoldable pub vfs_close : ℕ → Vfs W → Bool × Vfs W
  vfs_close handle v =
      if handle == 1 || is_boot handle v
      then (true, v)
      else if is_open handle v
      then (
        true,
        record v {
          handles =
              set v.handles (handle - 2)
                (record (handle_at v (handle - 2)) { used = false; mount = none });
          fs = elim (handle_at v (handle - 2)).mount [
            | none ↦ v.fs
            | some slot ↦ filesystem_mount_release slot (v.fs)
          ];
        },
      )
      else (false, v)

  -- The test by which `vfs_read` refuses a handle whose mount is another one by now.
  abbrev pub is_stale : Handle → Option ℕ → Vfs W → Bool
  is_stale h mount v = elim h.mount [
    | none ↦ false
    | some slot ↦
        not ((mount_at (v.fs) slot).active)
        || (not ((mount_at (v.fs) slot).generation == h.mount_generation)
            || elim mount [ none ↦ true | some other ↦ not (other == slot) ])
  ]

  module _ (c : Contexts W) (legacy : Legacy W) where
    -- The part of `vfs_open` for a path on a disk: with the mount that it leads to.
    unfoldable pub open_on : List ℕ → Option ℕ → List ℕ → Vfs W → ℕ × Vfs W
    open_on path none relative v =
        let (found, w) = legacy.is_there path v.fs.world in
        let asked = record v { fs = record (v.fs) { world = w } } in
        if found then take_handle path none asked else (0, asked)
    open_on path (some slot) relative v = elim (filesystem_stat c slot relative (v.fs)) [
      | none ↦ (0, v)
      | some stat ↦
          if stat.is_directory
          then (0, v)
          else (let (done, t) = filesystem_mount_acquire slot (v.fs) in
              if done then take_handle path (some slot) (record v { fs = t }) else (0, v))
    ]

    unfoldable pub vfs_open : List ℕ → Vfs W → ℕ × Vfs W
    vfs_open path v =
        if strings_equal path welcome.path
        then (1, v)
        else if v.boot_fallback_enabled
        then (boot_handle path 0 v.boot_nodes, v)
        else (let (mount, relative) = vfs_mount_for_path path v in open_on path mount relative v)

    -- The part of `vfs_read` for an open handle.
    unfoldable pub read_on : Handle → Option ℕ → List ℕ → ℕ → Vfs W → List ℕ × Vfs W
    read_on h mount relative size v = if is_stale h mount v then ([], v) else elim mount [
      | some slot ↦ (filesystem_read c slot relative size (v.fs), v)
      | none ↦
          let (bytes, w) = legacy.read h.path size (v.fs.world) in
          (bytes, record v { fs = record (v.fs) { world = w } })
    ]

    -- The bytes that are read.
    unfoldable pub vfs_read : ℕ → ℕ → Vfs W → List ℕ × Vfs W
    vfs_read handle size v =
        if v.boot_fallback_enabled && is_boot handle v
        then (take size (get_or v.boot_nodes (handle - boot_handle_base) welcome).bytes, v)
        else if is_open handle v
        then (let (mount, relative) = vfs_mount_for_path (handle_at v (handle - 2)).path v in
            read_on (handle_at v (handle - 2)) mount relative size v)
        else if not (handle == 1)
        then ([], v)
        else (take size (welcome.bytes), v)
