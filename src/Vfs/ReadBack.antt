-- ===== src/Vfs/ReadBack.antt =====
-- Reading a file through a handle that was just opened, in src/kernel/vfs.c.
use asas_os.Common.{
  ℕ, ◌+◌, ◌-◌, ◌<◌, ◌≡◌, ◌≢◌, ◌⊎◌, inl, inr, refl, sym, ◌∙◌, ap, Bool, true, false, not, ◌&&◌, ◌||◌,
  Option, none, some, List, [], ltb, ◌==◌, if◌then◌else◌, arith, Bool-cases, Option-cases, get_or,
  set, length, take-whole, get_or-set_self,
}
use mathlib.Core.Path.{subst}
use asas_os.Common.Words.{word32}
use asas_os.Filesystem.{
  Mount, max_mounts, Contexts, Table, mount_at, filesystem_stat, filesystem_read,
  filesystem_mount_acquire,
}
use asas_os.Filesystem.References.{is_live, Referred, filesystem_mount_acquire_lem}
use asas_os.Vfs.Paths.{copy_string, strings_equal}
use asas_os.Vfs.State.{
  Vfs, Legacy, Handle, no_handle, welcome, handle_at, handle_count, path_capacity,
  vfs_select_volume_for_path, vfs_mount_for_path,
}
use asas_os.Vfs.Files.{
  free_handle, take_handle, is_open, is_boot, open_on, is_stale, read_on, vfs_open, vfs_read,
}
use asas_os.Vfs.References.{opened}
use asas_os.Vfs.Lifetime.{Agrees}

-- A path that fits into a handle is kept whole.
pub copy_string_lem :
    (path : List ℕ) → length path < path_capacity → copy_string path_capacity path ≡ path
unfolding copy_string
copy_string_lem path b = take-whole 63 path (omega arith)

if-false : {A : Type 0} (b : Bool) (x y : A) → b ≡ false → (if b then x else y) ≡ y
if-false true x y q = absurd (ground (arith, q))
if-false false x y q = refl

if-true : {A : Type 0} (b : Bool) (x y : A) → b ≡ true → (if b then x else y) ≡ x
if-true true x y q = refl
if-true false x y q = absurd (ground (arith, q))

module _ {W : Type 0} where
  -- The state with a new handle, and the table in which its mount has a reference more.
  abbrev after : List ℕ → ℕ → ℕ → Vfs W → Table W → Vfs W
  after path slot k v t = record v {
    handles = set v.handles k (opened (copy_string path_capacity path) slot t);
    fs = t;
  }

  take_handle-after :
      (path : List ℕ) (slot : ℕ) (v : Vfs W) (t : Table W)
      → ((take_handle path (some slot) (record v { fs = t })).0 ≡ 0)
        ⊎ ((k : ℕ) × (k < handle_count)
            × (take_handle path (some slot) (record v { fs = t }) ≡ (k + 2, after path slot k v t)))
  unfolding take_handle
  take_handle-after path slot v t = elim (Bool-cases (ltb (free_handle 0 v.handles) handle_count)) [
    | inr z ↦ inl (rw (z, take_handle) refl)
    | inl z ↦ inr (free_handle 0 v.handles, ground arith, rw (z, take_handle) refl)
  ]

  acquire-world : (slot : ℕ) (t : Table W) → (filesystem_mount_acquire slot t).1.world ≡ t.world
  unfolding filesystem_mount_acquire
  acquire-world slot t =
      elim (Bool-cases (
        not (ltb slot max_mounts && (mount_at t slot).id == slot)
        || not ((mount_at t slot).active))) [
          | inl z ↦ rw (z, filesystem_mount_acquire) refl
          | inr z ↦ rw (z, filesystem_mount_acquire) refl
        ]

  module _ (c : Contexts W) where
    -- What is read from a mount does not depend on what refers to it.
    filesystem_read-Referred :
        (t t' : Table W) (slot n size : ℕ) (path : List ℕ)
        → Referred t slot n t'
        → t'.world ≡ t.world
        → filesystem_read c slot path size t' ≡ filesystem_read c slot path size t
    unfolding filesystem_read
    filesystem_read-Referred t t' slot n size path r q =
        let read_from : Mount → W → List ℕ = λ m w.
          if not (m.active)
          then []
          else elim (m.driver) [ none ↦ [] | some d ↦ c.read d (m.context) path size w ] in
        ap (λ m. read_from m t'.world) r.here ∙ ap (read_from (mount_at t slot)) q

    module _ (legacy : Legacy W) where
      read_on-opened :
          (path relative : List ℕ) (slot size : ℕ) (v : Vfs W)
          → (mount_at (v.fs) slot).active ≡ true
          → read_on c legacy (opened path slot (v.fs)) (some slot) relative size v
            ≡ (filesystem_read c slot relative size (v.fs), v)
      unfolding read_on
      read_on-opened path relative slot size v z =
          let fresh : is_stale (opened path slot (v.fs)) (some slot) v ≡ false = ground arith in
          if-false (is_stale (opened path slot (v.fs)) (some slot) v) _ _ fresh

      -- The part of `vfs_open` for a path on a mount.
      open_on-some :
          (path relative : List ℕ) (slot : ℕ) (v : Vfs W)
          → Agrees v
          → ((open_on c legacy path (some slot) relative v).0 ≡ 0)
            ⊎ ((k : ℕ) × (t : Table W) × (k < handle_count)
                × (is_live v.fs slot ≡ true)
                × Referred v.fs slot (word32 ((mount_at (v.fs) slot).reference_count + 1)) t
                × (t.world ≡ v.fs.world)
                × (open_on c legacy path (some slot) relative v ≡ (k + 2, after path slot k v t)))
      unfolding open_on
      open_on-some path relative slot v a =
          elim (Option-cases (filesystem_stat c slot relative (v.fs))) [
            | inl z ↦ inl (rw (z, open_on) refl)
            | inr (stat, z) ↦ elim (Bool-cases stat.is_directory) [
              | inl y ↦ inl (rw (z, y, open_on) refl)
              | inr y ↦ elim (filesystem_mount_acquire_lem slot v.fs a.table) [
                | inr (_, q) ↦ inl (rw (z, y, q, open_on) refl)
                | inl (live, q, r) ↦
                    elim (take_handle-after path slot v ((filesystem_mount_acquire slot v.fs).1)) [
                      | inl x ↦ inl (rw (z, y, q, open_on) x)
                      | inr (k, b, x) ↦ inr (
                        k,
                        (filesystem_mount_acquire slot v.fs).1,
                        b,
                        live,
                        r,
                        acquire-world slot v.fs,
                        rw (z, y, q, open_on) x,
                      )
                    ]
              ]
            ]
          ]

      read-after :
          (path relative : List ℕ) (slot size k : ℕ) (v : Vfs W) (t : Table W)
          → v.boot_fallback_enabled ≡ false
          → length path < path_capacity
          → vfs_mount_for_path path v ≡ (some slot, relative)
          → length v.handles ≡ handle_count
          → k < handle_count
          → is_live v.fs slot ≡ true
          → Referred v.fs slot (word32 ((mount_at (v.fs) slot).reference_count + 1)) t
          → t.world ≡ v.fs.world
          → vfs_read c legacy (k + 2) size (after path slot k v t)
            ≡ (filesystem_read c slot relative size (v.fs), after path slot k v t)
      unfolding vfs_read vfs_mount_for_path vfs_select_volume_for_path
      read-after path relative slot size k v t on_disk short leads full b live r same =
          let v' : Vfs W = after path slot k v t in
          let at_k : handle_at v' (k + 2 - 2) ≡ opened path slot t =
            subst
              (λ i.
                get_or (set v.handles k (opened (copy_string path_capacity path) slot t)) i
                  no_handle
                ≡ opened path slot t)
              {x = k} (omega arith)
              (get_or-set_self v.handles k _ no_handle (omega (arith, full))
                ∙ ap (λ p. opened p slot t) (copy_string_lem path short)) in
          let in_use : is_open (k + 2) v' ≡ true =
            ground (arith, ap (λ (h : Handle). h.used) at_k) in
          let active : (mount_at t slot).active ≡ true =
            ap (λ (m : Mount). m.active) r.here ∙ ground arith in
          if-false (v'.boot_fallback_enabled && is_boot (k + 2) v') _ _ (ground arith)
          ∙ if-true (is_open (k + 2) v') _ _ in_use
          ∙ ap
              (λ (h : Handle).
                read_on c legacy h (vfs_mount_for_path h.path v').0 (vfs_mount_for_path h.path v').1
                  size v')
              at_k
          ∙ ap (λ (m : Option ℕ × List ℕ). read_on c legacy (opened path slot t) m.0 m.1 size v')
              leads
          ∙ read_on-opened path relative slot size v' active
          ∙ ap (λ bytes. (bytes, v')) (filesystem_read-Referred v.fs t slot _ size relative r same)

      -- A handle that `vfs_open` gives for a path shorter than 64 characters that leads to a mount reads
      -- what the mount has there; the boot fallback is off and the path is not the welcome text's.
      pub vfs_read-vfs_open :
          (path relative : List ℕ) (slot size : ℕ) (v : Vfs W)
          → Agrees v
          → v.boot_fallback_enabled ≡ false
          → strings_equal path welcome.path ≡ false
          → length path < path_capacity
          → vfs_mount_for_path path v ≡ (some slot, relative)
          → (vfs_open c legacy path v).0 ≢ 0
          → let (handle, v') = vfs_open c legacy path v in
            vfs_read c legacy handle size v' ≡ (filesystem_read c slot relative size (v.fs), v')
      unfolding vfs_open
      vfs_read-vfs_open path relative slot size v a on_disk other short leads found =
          let on_mount : vfs_open c legacy path v ≡ open_on c legacy path (some slot) relative v =
            if-false (strings_equal path welcome.path) _ _ other
            ∙ if-false v.boot_fallback_enabled _ _ on_disk
            ∙ ap (λ (m : Option ℕ × List ℕ). open_on c legacy path m.0 m.1 v) leads in
          elim (open_on-some path relative slot v a) [
            | inl z ↦ absurd (found (ap (λ r. r.0) on_mount ∙ z))
            | inr (k, t, b, live, r, same, q) ↦
                subst
                  (λ (r : ℕ × Vfs W).
                    vfs_read c legacy r.0 size r.1
                    ≡ (filesystem_read c slot relative size (v.fs), r.1))
                  (sym (on_mount ∙ q))
                  (read-after path relative slot size k v t on_disk short leads a.size b live r
                    same)
          ]
