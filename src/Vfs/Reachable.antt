-- ===== src/Vfs/Reachable.antt =====
-- Any sequence of opening, closing, changing, mounting, unmounting and remounting in src/kernel/vfs.c,
-- from the state in which nothing is mounted.
use Prim.Native.Nat.{bit_and}
use asas_os.Common.{
  ℕ, ◌<◌, ◌≡◌, inl, inr, refl, ap, false, not, ◌||◌, none, List, [], ◌∷◌, ◌==◌, arith, Bool-cases,
  Option-cases, length, replicate, get_or-replicate,
}
use asas_os.Filesystem.{
  fat32, ntfs, exfat, iso9660, udf, ext2, Mount, no_mount, Contexts, Change, mount_at, max_mounts,
  flag_read_only, filesystem_change,
}
use asas_os.Vfs.State.{
  Vfs, Legacy, no_handle, handle_at, handle_count, max_volumes, vfs_mount_for_path,
}
use asas_os.Vfs.Paths.{no_volume}
use asas_os.Vfs.Files.{vfs_open, vfs_close}
use asas_os.Vfs.ByPath.{change_path}
use asas_os.Vfs.References.{IsValid}
use asas_os.Vfs.Lifetime.{Agrees, if-Agrees, world-IsValid, vfs_open-IsValid, vfs_close-IsValid}
use asas_os.Vfs.Volumes.{Devices, vfs_mount_device, vfs_unmount, vfs_remount}
use asas_os.Vfs.Kept.{vfs_open-SameVolumes, change_path-SameVolumes, vfs_close-SameVolumes}
use asas_os.Vfs.Apart.{IsMounted, SameVolumes-Apart, vfs_mount_device-Apart, vfs_unmount-Apart}
use asas_os.Vfs.Remount.{vfs_remount-Apart}

-- The static variables once the drivers are registered, before anything is mounted.
abbrev pub fresh : {W : Type 0} → W → Vfs W
fresh w = record {
  boot_nodes = [];
  handles = replicate handle_count no_handle;
  boot_fallback_enabled = false;
  volumes = replicate max_volumes no_volume;
  volume_mounts = replicate max_volumes none;
  volume_count = 0;
  fs = record {
    drivers = fat32 ∷ ntfs ∷ exfat ∷ ext2 ∷ udf ∷ iso9660 ∷ [];
    mounts = replicate max_mounts no_mount;
    mount_count = 0;
    next_generation = 1;
    world = w;
  };
}

module _ {W : Type 0} (c : Contexts W) (legacy : Legacy W) (d : Devices W) where
  -- One call; a mount point is one that fits into its buffer.
  pub data Step (v : Vfs W) : Vfs W → Type 0 where
    open_file : (path : List ℕ) → Step v (vfs_open c legacy path v).1
    close_file : (handle : ℕ) → Step v (vfs_close handle v).1
    change_file :
        (change : List ℕ → Change) (path : List ℕ) → Step v (change_path c legacy change path v).1
    mount_device :
        (device_name mount_point : List ℕ) (flags : ℕ)
        → length mount_point < 32
        → Step v (vfs_mount_device c d device_name mount_point flags v).1
    unmount : (mount_point : List ℕ) → Step v (vfs_unmount c d mount_point v).1
    remount : (mount_point : List ℕ) (flags : ℕ) → Step v (vfs_remount c d mount_point flags v).1

  pub data Reach (w : W) : Vfs W → Type 0 where
    start : Reach w (fresh w)
    later : {v v' : Vfs W} → Reach w v → Step v v' → Reach w v'

  pub fresh-Agrees : (w : W) → Agrees (fresh w)
  fresh-Agrees w =
      let empty : (slot : ℕ) → mount_at (fresh w).fs slot ≡ no_mount =
        λ slot. get_or-replicate max_mounts slot no_mount in
      let closed : (k : ℕ) → handle_at (fresh w) k ≡ no_handle =
        λ k. get_or-replicate handle_count k no_handle in
      record {
        table = record {
          size = refl;
          counted = refl;
          opened = λ slot q. absurd (ground (arith, rw (empty slot) at q));
        };
        size = refl;
        referred = λ slot. ap (λ (m : Mount). m.reference_count) (empty slot);
        current = λ k slot q. absurd (ground (arith, rw (closed k) at q));
      }

  filesystem_change-IsValid :
      (slot : ℕ) (change : Change) (v : Vfs W)
      → Agrees v
      → IsValid v.handles (filesystem_change c slot change (v.fs)).1
  unfolding filesystem_change
  filesystem_change-IsValid slot change v a =
      let m = mount_at (v.fs) slot in
      elim (Bool-cases (not (m.active) || not (bit_and (m.flags) flag_read_only == 0))) [
        | inl z ↦ rw (z, filesystem_change) a
        | inr z ↦ elim (Option-cases (m.driver)) [
          | inl y ↦ rw (z, y, filesystem_change) a
          | inr (d, y) ↦ rw (z, y, filesystem_change) (world-IsValid v.handles v.fs _ a)
        ]
      ]

  pub change_path-Agrees :
      (change : List ℕ → Change) (path : List ℕ) (v : Vfs W)
      → Agrees v
      → Agrees (change_path c legacy change path v).1
  unfolding change_path
  change_path-Agrees change path v a =
      let (mount, relative) = vfs_mount_for_path path v in
      if-Agrees v.boot_fallback_enabled (false, v) _ a
        (elim (Option-cases mount) [
          | inl z ↦ rw (z, change_path) (world-IsValid v.handles v.fs _ a)
          | inr (slot, z) ↦
              rw (z, change_path) (filesystem_change-IsValid slot (change relative) v a)
        ])

  fresh-IsMounted : (w : W) → IsMounted (fresh w)
  fresh-IsMounted w = (
    fresh-Agrees w,
    record {
      size = refl;
      counted = omega arith;
      short = λ i u. absurd (ground (arith, u));
      apart = λ i j u. absurd (ground (arith, u));
    },
  )

  Step-IsMounted : (v v' : Vfs W) → IsMounted v → Step v v' → IsMounted v'
  Step-IsMounted v _ m (open_file path) =
      let (a, s) = m in
      (
        vfs_open-IsValid c legacy path v a,
        SameVolumes-Apart v _ (vfs_open-SameVolumes c legacy path v) s,
      )
  Step-IsMounted v _ m (close_file handle) =
      let (a, s) = m in
      (vfs_close-IsValid handle v a, SameVolumes-Apart v _ (vfs_close-SameVolumes handle v) s)
  Step-IsMounted v _ m (change_file change path) =
      let (a, s) = m in
      (
        change_path-Agrees change path v a,
        SameVolumes-Apart v _ (change_path-SameVolumes c legacy change path v) s,
      )
  Step-IsMounted v _ m (mount_device name point flags b) =
      vfs_mount_device-Apart c d name point flags v b m
  Step-IsMounted v _ m (unmount point) = vfs_unmount-Apart c d point v m
  Step-IsMounted v _ m (remount point flags) = vfs_remount-Apart c d point flags v m

  -- In every reachable state each mount has as many references as handles are open on it, the mount of
  -- an open handle is in use and still the one that was opened, and no mount point lies below another.
  pub Reach-IsMounted : (w : W) (v : Vfs W) → Reach w v → IsMounted v
  Reach-IsMounted w _ start = fresh-IsMounted w
  Reach-IsMounted w _ (later {v} {v'} r s) = Step-IsMounted v v' (Reach-IsMounted w v r) s
