-- ===== src/Vfs/Entering.antt =====
-- What `vfs_mount_device` of src/kernel/vfs.c changes in the table of volumes.
use asas_os.Common.{
  ℕ, ◌+◌, ◌≡◌, ◌≢◌, ◌⊎◌, inl, inr, refl, Bool, true, false, not, ◌||◌, some, List, ◌==◌,
  if◌then◌else◌, arith, Bool-cases, Option-cases, set, take, ℕ_discrete, ==_iff,
}
use asas_os.Filesystem.{
  Driver, Contexts, Table, mount_at, filesystem_device_is_mounted, filesystem_probe,
}
use asas_os.Filesystem.Mounting.{filesystem_mount_lem}
use asas_os.Filesystem.References.{is_live}
use asas_os.Vfs.Paths.{copy_string, Volume}
use asas_os.Vfs.State.{Vfs, max_volumes}
use asas_os.Vfs.Volumes.{
  Devices, overlaps, free_volume, may_mount_at, are_mount_flags, find_device, described,
  enter_volume, mount_found, vfs_mount_device,
}
use asas_os.Vfs.Lifetime.{Agrees, world-IsValid}
use asas_os.Vfs.Mounts.{filesystem_mount-IsValid, filesystem_unmount-IsValid}

module _ {W : Type 0} where
  -- The volumes are as they were.
  pub record SameVolumes (v v' : Vfs W) : Type 0 where
    pub volumes : v'.volumes ≡ v.volumes
    pub volume_mounts : v'.volume_mounts ≡ v.volume_mounts
    pub volume_count : v'.volume_count ≡ v.volume_count

  -- A volume was written over one that was not in use.
  pub record Entered (mount_point : List ℕ) (v v' : Vfs W) : Type 0 where
    pub index : ℕ
    pub volume : Volume
    pub slot : ℕ
    pub unused : index ≡ free_volume v.volume_count 0 v.volumes
    pub bound : index ≢ max_volumes
    pub valid : volume.valid ≡ true
    pub at_point : volume.mount_point ≡ copy_string 32 mount_point
    pub volumes : v'.volumes ≡ set v.volumes index volume
    pub volume_mounts : v'.volume_mounts ≡ set v.volume_mounts index (some slot)
    pub volume_count :
        v'.volume_count ≡ (if index == v.volume_count then v.volume_count + 1 else v.volume_count)
    pub live : is_live v'.fs slot ≡ true

  -- What is known of every result of a mount.
  abbrev pub Outcome : List ℕ → Vfs W → Bool × Vfs W → Type 0
  Outcome mount_point v r =
      Agrees r.1
      × (((r.0 ≡ false) × SameVolumes v r.1)
          ⊎ ((r.0 ≡ true)
              × (overlaps mount_point (take v.volume_count v.volumes) ≡ false)
              × Entered mount_point v r.1))

  refused : (mount_point : List ℕ) (v : Vfs W) → Agrees v → Outcome mount_point v (false, v)
  refused mount_point v a =
      (a, inl (refl, record { volumes = refl; volume_mounts = refl; volume_count = refl }))

  if-Outcome :
      (mount_point : List ℕ) (v : Vfs W) (b : Bool) (x y : Bool × Vfs W)
      → Outcome mount_point v x
      → (b ≡ false → Outcome mount_point v y)
      → Outcome mount_point v (if b then x else y)
  if-Outcome mount_point v true x y o _ = o
  if-Outcome mount_point v false x y _ o = o refl

  module _ (c : Contexts W) (d : Devices W) where
    enter_volume-Outcome :
        (device : ℕ) (driver : Driver) (slot : ℕ) (mount_point : List ℕ) (v : Vfs W) (t : Table W)
        → overlaps mount_point (take v.volume_count v.volumes) ≡ false
        → is_live t slot ≡ true
        → Agrees (record v { fs = t })
        → Outcome mount_point v
            (enter_volume c d device driver slot mount_point (record v { fs = t }))
    unfolding enter_volume described
    enter_volume-Outcome device driver slot mount_point v t apart live a =
        elim (ℕ_discrete (free_volume v.volume_count 0 v.volumes) max_volumes) [
          | yes e ↦
              rw ((==_iff (free_volume v.volume_count 0 v.volumes) max_volumes).1 e, enter_volume)
                (
                  filesystem_unmount-IsValid c slot v.handles t a,
                  inl (refl, record { volumes = refl; volume_mounts = refl; volume_count = refl }),
                )
          | no ne ↦
              let z : (free_volume v.volume_count 0 v.volumes == max_volumes) ≡ false =
                ground (arith, ne) in
              rw (z, enter_volume)
                (
                  a,
                  inr (
                    refl,
                    apart,
                    record {
                      index = free_volume v.volume_count 0 v.volumes;
                      volume = described c d device driver (mount_at t slot) t.world mount_point;
                      slot = slot;
                      unused = refl;
                      bound = ne;
                      valid = refl;
                      at_point = refl;
                      volumes = refl;
                      volume_mounts = refl;
                      volume_count = refl;
                      live = live;
                    },
                  ),
                )
        ]

    mount_found-Outcome :
        (device flags : ℕ) (mount_point : List ℕ) (v : Vfs W)
        → overlaps mount_point (take v.volume_count v.volumes) ≡ false
        → Agrees v
        → Outcome mount_point v (mount_found c d device flags mount_point v)
    unfolding mount_found filesystem_probe
    mount_found-Outcome device flags mount_point v apart a =
        let probed = (filesystem_probe c device (v.fs)).1 in
        let probed-IsValid = world-IsValid v.handles v.fs probed.world a in
        elim (Bool-cases
          (filesystem_device_is_mounted (λ i. d.parent i v.fs.world) device (v.fs))) [
            | inl z ↦ rw (z, mount_found) (refused mount_point v a)
            | inr z ↦ elim (Option-cases ((filesystem_probe c device (v.fs)).0)) [
              | inl y ↦
                  rw (z, y, mount_found)
                    (
                      probed-IsValid,
                      inl (
                        refl,
                        record { volumes = refl; volume_mounts = refl; volume_count = refl },
                      ),
                    )
              | inr (driver, y) ↦
                  let (_, either) =
                    filesystem_mount_lem c device driver flags probed probed-IsValid.table in
                  let kept =
                    filesystem_mount-IsValid c device driver flags v.handles probed
                      probed-IsValid in
                  elim either [
                    | inl (x, _) ↦
                        rw (z, y, x, mount_found)
                          (
                            kept,
                            inl (
                              refl,
                              record { volumes = refl; volume_mounts = refl; volume_count = refl },
                            ),
                          )
                    | inr (slot, x, m) ↦
                        rw (z, y, x, mount_found)
                          (enter_volume-Outcome device driver slot mount_point v _ apart
                            (let b = m.bound in let q = m.active in ground arith) kept)
                  ]
            ]
          ]

    -- A device is mounted at a path that no mount point lies on the way to or from, and then a volume
    -- that was not in use leads from there to a mount that is; or the volumes are as they were. Handles
    -- and references agree on either way.
    pub vfs_mount_device_lem :
        (device_name mount_point : List ℕ) (flags : ℕ) (v : Vfs W)
        → Agrees v
        → Outcome mount_point v (vfs_mount_device c d device_name mount_point flags v)
    unfolding vfs_mount_device
    vfs_mount_device_lem device_name mount_point flags v a =
        if-Outcome mount_point v (not (may_mount_at mount_point) || not (are_mount_flags flags)) _ _
          (refused mount_point v a)
          (λ _.
            if-Outcome mount_point v (overlaps mount_point (take v.volume_count v.volumes)) _ _
              (refused mount_point v a)
              (λ y. elim (Option-cases (find_device c d device_name (v.fs.world))) [
                | inl x ↦ rw (x, vfs_mount_device) (refused mount_point v a)
                | inr (device, x) ↦
                    rw (x, vfs_mount_device) (mount_found-Outcome device flags mount_point v y a)
              ]))
