-- ===== src/Vfs/Leads.antt =====
-- A path below a mount point leads to the mount there, in src/kernel/vfs.c.
use asas_os.Common.{
  ℕ, zero, suc, ◌≤◌, ◌<◌, ◌≡◌, inl, inr, refl, sym, ◌∙◌, ap, true, none, some, List, [], ◌∷◌, arith,
  get_or, take, take-whole, length, length-take, get_or-set_self, ℕ_discrete,
}
use mathlib.Core.Path.{subst}
use asas_os.Filesystem.{Contexts}
use asas_os.Filesystem.References.{is_live}
use asas_os.Vfs.Paths.{is_end, copy_string, path_has_prefix, Volume, no_volume, relative_to}
use asas_os.Vfs.State.{
  Vfs, max_volumes, volume_at, volume_mount, vfs_select_volume_for_path, vfs_mount_for_path,
}
use asas_os.Vfs.Resolve.{fits, vfs_select_volume_for_path_lem}
use asas_os.Vfs.Volumes.{Devices, vfs_mount_device, may_mount_at}
use asas_os.Vfs.Entering.{Entered, vfs_mount_device_lem}
use asas_os.Vfs.Separate.{in_use}
use asas_os.Vfs.Apart.{Apart, IsMounted, Entered-index, vfs_mount_device-Apart}

-- Of two prefixes of a path the shorter is a prefix of the other.
prefix-total :
    (path p q : List ℕ)
    → path_has_prefix path p ≡ true
    → path_has_prefix path q ≡ true
    → length p ≤ length q
    → path_has_prefix q p ≡ true
unfolding path_has_prefix is_end
prefix-total path [] [] a b h = refl
prefix-total [] [] (y ∷ q) a b h = absurd (ground (arith, b))
prefix-total (x ∷ path) [] (y ∷ q) a b h = ground arith
prefix-total path (x ∷ p) [] a b h = absurd (omega arith)
prefix-total [] (x ∷ p) (y ∷ q) a b h = absurd (ground (arith, a))
prefix-total (z ∷ path) (x ∷ p) (y ∷ q) a b h =
    let rest = prefix-total path p q (ground (arith, a)) (ground (arith, b)) (omega (arith, h)) in
    ground arith

get_or-take :
    (n i : ℕ) (l : List Volume) → i < n → get_or (take n l) i no_volume ≡ get_or l i no_volume
get_or-take zero i l b = absurd (omega arith)
get_or-take (suc n) i [] b = refl
get_or-take (suc n) zero (v ∷ l) b = refl
get_or-take (suc n) (suc i) (v ∷ l) b = get_or-take n i l (omega arith)

module _ {W : Type 0} where
  -- Where mount points are apart, a path below one leads to it.
  select-Apart :
      (path : List ℕ) (v : Vfs W) (i : ℕ)
      → Apart v
      → in_use v.volume_count v.volumes i ≡ true
      → fits path (volume_at v i) ≡ true
      → vfs_select_volume_for_path path v
        ≡ some (i, relative_to (length (volume_at v i).mount_point) path)
  select-Apart path v i s u f =
      let volumes = take v.volume_count v.volumes in
      let here : get_or volumes i no_volume ≡ volume_at v i =
        get_or-take v.volume_count i v.volumes (ground (arith, u)) in
      let fits_i : fits path (get_or volumes i no_volume) ≡ true =
        subst (λ x. fits path x ≡ true) (sym here) f in
      elim (vfs_select_volume_for_path_lem path v) [
        | inr (no_fit, _) ↦ absurd (ground (arith, no_fit i, fits_i))
        | inl (j, longest, q) ↦
            let b : j < v.volume_count =
              omega (arith, longest.bound, length-take v.volume_count v.volumes) in
            let there : get_or volumes j no_volume ≡ volume_at v j =
              get_or-take v.volume_count j v.volumes b in
            elim (ℕ_discrete i j) [
              | yes e ↦
                  subst
                    (λ k.
                      vfs_select_volume_for_path path v
                      ≡ some (k, relative_to (length (volume_at v k).mount_point) path))
                    (sym e)
                    (subst
                      (λ x.
                        vfs_select_volume_for_path path v
                        ≡ some (j, relative_to (length x.mount_point) path))
                      there q)
              | no ne ↦
                  let fits_j : fits path (volume_at v j) ≡ true =
                    subst (λ x. fits path x ≡ true) there longest.fitting in
                  let le : length (volume_at v i).mount_point ≤ length (volume_at v j).mount_point =
                    subst (λ x. length x.mount_point ≤ length (volume_at v j).mount_point) here
                      (subst
                        (λ x.
                          length (get_or volumes i no_volume).mount_point ≤ length x.mount_point)
                        there (longest.longest i fits_i)) in
                  let below =
                    prefix-total path (volume_at v i).mount_point (volume_at v j).mount_point
                      (ground (arith, f)) (ground (arith, fits_j)) le in
                  let not_below = s.apart j i (ground (arith, b, fits_j)) u (λ e. ne (sym e)) in
                  absurd (ground (arith, below, not_below))
            ]
      ]

  -- A volume that was entered leads to its mount.
  Entered-leads :
      (path mount_point : List ℕ) (v v' : Vfs W)
      → (e : Entered mount_point v v') → Apart v
      → Apart v'
      → length v.volume_mounts ≡ max_volumes
      → length mount_point < 32
      → 0 < length mount_point
      → path_has_prefix path mount_point ≡ true
      → vfs_mount_for_path path v' ≡ (some e.slot, relative_to (length mount_point) path)
  unfolding copy_string vfs_mount_for_path
  Entered-leads path mount_point v v' e s s' full short positive below =
      let whole : e.volume.mount_point ≡ mount_point =
        e.at_point ∙ take-whole 31 mount_point (omega arith) in
      let (le, lt, _) = Entered-index mount_point v v' e s in
      let self : volume_at v' e.index ≡ e.volume =
        ap (λ l. get_or l e.index no_volume) e.volumes
        ∙ get_or-set_self v.volumes e.index e.volume no_volume (omega (arith, s.size)) in
      let at_slot : volume_mount v' e.index ≡ some e.slot =
        ap (λ l. get_or l e.index none) e.volume_mounts
        ∙ get_or-set_self v.volume_mounts e.index (some e.slot) none (omega (arith, full)) in
      let point : (volume_at v' e.index).mount_point ≡ mount_point =
        ap (λ (x : Volume). x.mount_point) self ∙ whole in
      let valid : (volume_at v' e.index).valid ≡ true =
        ap (λ (x : Volume). x.valid) self ∙ e.valid in
      let positive' : 0 < length (volume_at v' e.index).mount_point =
        subst (λ p. 0 < length p) (sym point) positive in
      let below' = subst (λ p. path_has_prefix path p ≡ true) (sym point) below in
      let selected =
        select-Apart path v' e.index s' (ground (arith, le, e.volume_count, valid))
          (ground (arith, below', positive', valid)) in
      rw (selected, vfs_mount_for_path)
        (ap (λ m. (m, relative_to (length (volume_at v' e.index).mount_point) path)) at_slot
          ∙ ap (λ p. (some e.slot, relative_to (length p) path)) point)

  -- Once a device is mounted at a mount point shorter than 32 characters, in a state in which references
  -- agree and mount points are apart, every path below the mount point leads to a mount that is in use,
  -- with the rest of the path.
  pub vfs_mount_device-leads :
      (c : Contexts W) (d : Devices W) (device_name mount_point path : List ℕ) (flags : ℕ)
      (v : Vfs W)
      → IsMounted v
      → length v.volume_mounts ≡ max_volumes
      → length mount_point < 32
      → (vfs_mount_device c d device_name mount_point flags v).0 ≡ true
      → path_has_prefix path mount_point ≡ true
      → let v' = (vfs_mount_device c d device_name mount_point flags v).1 in
        (slot : ℕ) × (vfs_mount_for_path path v'
          ≡ (some slot, relative_to (length mount_point) path))
        × (is_live v'.fs slot ≡ true)
  unfolding vfs_mount_device may_mount_at
  vfs_mount_device-leads c d name [] path flags v m full short done below =
      absurd (ground (arith, done))
  vfs_mount_device-leads c d name (x ∷ rest) path flags v m full short done below =
      let (a, s) = m in
      let (_, s') = vfs_mount_device-Apart c d name (x ∷ rest) flags v short m in
      let (_, either) = vfs_mount_device_lem c d name (x ∷ rest) flags v a in
      elim either [
        | inl (not_done, _) ↦ absurd (cc (done, not_done))
        | inr (_, _, e) ↦ (
          e.slot,
          Entered-leads path (x ∷ rest) v _ e s s' full short (omega arith) below,
          e.live,
        )
      ]
