-- ===== src/Vfs/Changes.antt =====
-- The operations of src/kernel/vfs.c that change files reach a file system alone, and only a mount that
-- may be written.
use Prim.Native.Nat.{bit_and}
use asas_os.Common.{
  ℕ, ◌≡◌, ◌⊎◌, inl, inr, refl, ◌∙◌, ap, Bool, true, false, not, ◌&&◌, ◌||◌, some, List, ◌==◌,
  if◌then◌else◌, arith, Bool-cases, Option-cases, ==_iff,
}
use asas_os.Filesystem.{
  Contexts, Change, rename, Table, mount_at, flag_read_only, filesystem_change,
}
use asas_os.Vfs.State.{Vfs, Legacy, vfs_mount_for_path}
use asas_os.Vfs.ByPath.{change_path, vfs_rename}

module _ {W : Type 0} where
  -- A mount in use that is not read-only.
  abbrev pub is_writable : Table W → ℕ → Bool
  is_writable t slot =
      (mount_at t slot).active && bit_and (mount_at t slot).flags flag_read_only == 0

  -- At most the world is another one, and a success is one on a writable mount.
  abbrev pub Reaches : ℕ → Vfs W → Bool × Vfs W → Type 0
  Reaches slot v r =
      (r.1 ≡ record v { fs = record (v.fs) { world = r.1.fs.world } })
      × ((r.0 ≡ false) ⊎ (is_writable v.fs slot ≡ true))

  module _ (c : Contexts W) where
    filesystem_change_lem :
        (slot : ℕ) (change : Change) (v : Vfs W)
        → let (done, t) = filesystem_change c slot change (v.fs) in
          Reaches slot v (done, record v { fs = t })
    unfolding filesystem_change
    filesystem_change_lem slot change v =
        let m = mount_at (v.fs) slot in
        elim (Bool-cases (not (m.active) || not (bit_and (m.flags) flag_read_only == 0))) [
          | inl z ↦ rw (z, filesystem_change) (refl, inl refl)
          | inr z ↦ elim (Option-cases (m.driver)) [
            | inl y ↦ rw (z, y, filesystem_change) (refl, inl refl)
            | inr (d, y) ↦ (rw (z, y, filesystem_change) refl, inr (ground (arith, z)))
          ]
        ]

    if-Reaches :
        (slot : ℕ) (v : Vfs W) (b : Bool) (x y : Bool × Vfs W)
        → Reaches slot v x
        → Reaches slot v y
        → Reaches slot v (if b then x else y)
    if-Reaches slot v true x y r _ = r
    if-Reaches slot v false x y _ r = r

    -- A write, an unlink or a change of directories at a path that leads to a mount leaves all but the
    -- world as it was, and fails unless the mount is in use and not read-only.
    pub change_path-Reaches :
        (legacy : Legacy W) (change : List ℕ → Change) (path relative : List ℕ) (slot : ℕ)
        (v : Vfs W)
        → vfs_mount_for_path path v ≡ (some slot, relative)
        → Reaches slot v (change_path c legacy change path v)
    unfolding change_path
    change_path-Reaches legacy change path relative slot v q =
        if-Reaches slot v v.boot_fallback_enabled (false, v) _ (refl, inl refl)
          (rw (ap (λ m. m.0) q, change_path)
            (filesystem_change_lem slot (change (vfs_mount_for_path path v).1) v))

    -- A rename leaves all but the world as it was, and fails unless both paths lead to one mount that is
    -- in use and not read-only.
    pub vfs_rename-Reaches :
        (legacy : Legacy W) (source destination : List ℕ) (v : Vfs W)
        → (vfs_rename c legacy source destination v ≡ (false, v))
          ⊎ ((slot : ℕ) × ((vfs_mount_for_path source v).0 ≡ some slot)
              × ((vfs_mount_for_path destination v).0 ≡ some slot)
              × Reaches slot v (vfs_rename c legacy source destination v))
    unfolding vfs_rename
    vfs_rename-Reaches legacy source destination v =
        let (mount, from) = vfs_mount_for_path source v in
        let (other, to) = vfs_mount_for_path destination v in
        elim (Option-cases mount) [
          | inl z ↦ inl (rw (z, vfs_rename) refl)
          | inr (slot, z) ↦ elim (Option-cases other) [
            | inl y ↦ inl (rw (z, y, vfs_rename) refl)
            | inr (slot', y) ↦ elim (Bool-cases (slot' == slot)) [
              | inr x ↦ inl (rw (z, y, x, vfs_rename) refl)
              | inl x ↦ inr (
                slot,
                z,
                y ∙ ap some ((==_iff slot' slot).0 x),
                rw (z, y, x, vfs_rename) (filesystem_change_lem slot (rename from to) v),
              )
            ]
          ]
        ]
