-- ===== src/Vfs/Removal.antt =====
-- The mounts that src/kernel/vfs.c makes by itself, and the removal of a device, keep handles and
-- references in agreement.
use Prim.Native.Nat.{bit_or}
use asas_os.Common.{
  ℕ, zero, suc, ◌+◌, ◌<◌, ◌≡◌, ◌⊎◌, inl, inr, refl, sym, ◌∙◌, ap, Bool, true, false, ◌&&◌, none,
  some, List, [], ◌∷◌, ◌==◌, if◌then◌else◌, arith, Bool-cases, Option-cases, get_or, set, length,
  get_or-set_self, get_or-set_ne, ℕ_discrete,
}
use mathlib.Core.Path.{subst}
use asas_os.Filesystem.{
  Driver, Mount, no_mount, Contexts, Table, mount_at, put_mount, max_mounts, flag_read_only,
  flag_no_exec, filesystem_device_is_mounted, filesystem_probe, filesystem_mount,
  filesystem_unmount,
}
use asas_os.Filesystem.Slots
use asas_os.Vfs.State.{Vfs, Handle, max_volumes, volume_at, volume_mount}
use asas_os.Vfs.Volumes.{Devices, free_volume}
use asas_os.Vfs.Startup.{
  is_on, enter_automatic, mount_one, mount_from, vfs_mount_all_volumes, lock_volume, lock_from,
  vfs_handle_device_removed,
}
use asas_os.Vfs.References.{IsValid}
use asas_os.Vfs.Lifetime.{Agrees, if-Agrees, world-IsValid}
use asas_os.Vfs.Mounts.{filesystem_mount-IsValid, filesystem_unmount-IsValid}

pub if-holds :
    {A : Type 0} (P : A → Type 0) (b : Bool) (x y : A) → P x → P y → P (if b then x else y)
if-holds P true x y p _ = p
if-holds P false x y _ p = p

is_on-bound :
    {W : Type 0} (d : Devices W) (device slot : ℕ) (l : List Mount) (w : W)
    → is_on d device (get_or l slot no_mount).device w ≡ true
    → slot < length l
unfolding is_on
is_on-bound d device slot [] w q = absurd (ground (arith, q))
is_on-bound d device zero (m ∷ l) w q = omega arith
is_on-bound d device (suc slot) (m ∷ l) w q = omega (arith, is_on-bound d device slot l w q)

module _ {W : Type 0} where
  -- A mount gets other flags.
  flags-IsValid :
      (handles : List Handle) (t : Table W) (slot flags : ℕ)
      → slot < max_mounts
      → IsValid handles t
      → IsValid handles (put_mount t slot (record (mount_at t slot) { flags = flags }))
  flags-IsValid handles t slot flags b v =
      let m : Mount = record (mount_at t slot) { flags = flags } in
      let lt : slot < length t.mounts = omega (arith, b, v.table.size) in
      let same : (k : ℕ)
          → (get_or (set t.mounts slot m) k no_mount ≡ mount_at t k)
            ⊎ (get_or (set t.mounts slot m) k no_mount ≡ record (mount_at t k) { flags = flags }) =
        λ k. elim (ℕ_discrete slot k) [
          | no ne ↦ inl (get_or-set_ne t.mounts slot k m no_mount ne)
          | yes e ↦ inr (
              subst
                (λ i.
                  get_or (set t.mounts slot m) i no_mount ≡ record (mount_at t i) { flags = flags })
                e (get_or-set_self t.mounts slot m no_mount lt))
        ] in
      record {
        table =
            Slots.written-IsValid t slot t.mount_count t.next_generation m t.world v.table b
              (λ a.
                let o = v.table.opened slot a in
                record { own_id = o.own_id; on_device = o.on_device; by_driver = o.by_driver })
              (v.table.counted ∙ sym (Slots.active_count-set_same t.mounts slot m lt refl));
        size = v.size;
        referred = λ k. elim (same k) [
          | inl e ↦ ap (λ (x : Mount). x.reference_count) e ∙ v.referred k
          | inr e ↦ ap (λ (x : Mount). x.reference_count) e ∙ v.referred k
        ];
        current = λ j k q.
            let (live, generation) = v.current j k q in
            elim (same k) [
              | inl e ↦
                  let active = ap (λ (x : Mount). x.active) e in
                  (ground arith, ap (λ (x : Mount). x.generation) e ∙ generation)
              | inr e ↦
                  let active = ap (λ (x : Mount). x.active) e in
                  (ground arith, ap (λ (x : Mount). x.generation) e ∙ generation)
            ];
      }

  module _ (d : Devices W) (c : Contexts W) where
    enter_automatic-Agrees :
        (device : ℕ) (driver : Driver) (slot : ℕ) (v : Vfs W)
        → Agrees v
        → Agrees (enter_automatic d c device driver slot v).1
    unfolding enter_automatic
    enter_automatic-Agrees device driver slot v a =
        if-Agrees (free_volume v.volume_count 0 v.volumes == max_volumes) _ _
          (filesystem_unmount-IsValid c slot v.handles v.fs a) a

    mount_one-Agrees : (device : ℕ) (v : Vfs W) → Agrees v → Agrees (mount_one d c device v).1
    unfolding mount_one filesystem_probe
    mount_one-Agrees device v a =
        let probed = (filesystem_probe c device (v.fs)).1 in
        let probed-IsValid = world-IsValid v.handles v.fs probed.world a in
        let whole : Bool = elim (d.parent device (v.fs.world)) [ none ↦ true | some p ↦ false ] in
        if-Agrees (filesystem_device_is_mounted (λ i. d.parent i v.fs.world) device (v.fs)) _ _ a (
          if-Agrees (whole && d.has_partitions device (v.fs.world)) (false, v) _ a
            (elim (Option-cases ((filesystem_probe c device (v.fs)).0)) [
              | inl y ↦ rw (y, mount_one) probed-IsValid
              | inr (driver, y) ↦
                  let mounted = (filesystem_mount c device driver 0 probed).1 in
                  let mounted-IsValid =
                    filesystem_mount-IsValid c device driver 0 v.handles probed probed-IsValid in
                  elim (Option-cases ((filesystem_mount c device driver 0 probed).0)) [
                    | inl x ↦ rw (y, x, mount_one) mounted-IsValid
                    | inr (slot, x) ↦
                        rw (y, x, mount_one)
                          (enter_automatic-Agrees device driver slot (record v { fs = mounted })
                            mounted-IsValid)
                  ]
            ]))

    mount_from-Agrees :
        (rounds device : ℕ) (v : Vfs W) → Agrees v → Agrees (mount_from d c rounds device v)
    unfolding mount_from
    mount_from-Agrees zero device v a = a
    mount_from-Agrees (suc rounds) device v a =
        let a' = mount_one-Agrees device v a in
        let later = mount_from-Agrees rounds (device + 1) (mount_one d c device v).1 a' in
        elim (Bool-cases ((mount_one d c device v).0)) [
          | inl z ↦ rw (z, mount_from) a'
          | inr z ↦ rw (z, mount_from) later
        ]

    pub vfs_mount_all_volumes-Agrees :
        (v : Vfs W) → Agrees v → Agrees (vfs_mount_all_volumes d c v).1
    unfolding vfs_mount_all_volumes
    vfs_mount_all_volumes-Agrees v a = mount_from-Agrees (d.count (v.fs.world)) 0 v a

    lock_volume-Agrees :
        (index slot : ℕ) (v : Vfs W)
        → slot < max_mounts
        → Agrees v
        → Agrees (lock_volume d c index slot v)
    unfolding lock_volume
    lock_volume-Agrees index slot v b a =
        let m = mount_at (v.fs) slot in
        let locked =
          put_mount (v.fs) slot
            (record m { flags = bit_or m.flags (bit_or flag_read_only flag_no_exec) }) in
        let locked-IsValid = flags-IsValid v.handles v.fs slot _ b a in
        let flushed : Table W = record locked {
          world = elim m.device [
            | none ↦ locked.world
            | some mounted ↦ (d.flush_barrier mounted (locked.world)).1
          ];
        } in
        let flushed-IsValid : IsValid v.handles flushed =
          world-IsValid v.handles locked flushed.world locked-IsValid in
        let unmounted = (filesystem_unmount c slot flushed).1 in
        let unmounted-IsValid =
          filesystem_unmount-IsValid c slot v.handles flushed flushed-IsValid in
        if-holds Agrees (m.reference_count == 0 && (filesystem_unmount c slot flushed).0) _ _
          unmounted-IsValid
          (if-holds (λ (t : Table W). IsValid v.handles t) (m.reference_count == 0) unmounted
            flushed unmounted-IsValid flushed-IsValid)

    lock_from-Agrees :
        (rounds index device : ℕ) (v : Vfs W)
        → Agrees v
        → Agrees (lock_from d c rounds index device v).1
    unfolding lock_from
    lock_from-Agrees zero index device v a = a
    lock_from-Agrees (suc rounds) index device v a = elim (Option-cases (volume_mount v index)) [
      | inl z ↦ rw (z, lock_from) (lock_from-Agrees rounds (index + 1) device v a)
      | inr (slot, z) ↦
          elim (Bool-cases (
            (volume_at v index).valid
            && is_on d device (mount_at (v.fs) slot).device (v.fs.world))) [
              | inr y ↦ rw (z, y, lock_from) (lock_from-Agrees rounds (index + 1) device v a)
              | inl y ↦
                  let b = is_on-bound d device slot v.fs.mounts v.fs.world (ground (arith, y)) in
                  rw (z, y, lock_from)
                    (lock_from-Agrees rounds (index + 1) device (lock_volume d c index slot v)
                      (lock_volume-Agrees index slot v (omega (arith, b, a.table.size)) a))
            ]
    ]

    pub vfs_handle_device_removed-Agrees :
        (name : List ℕ) (v : Vfs W) → Agrees v → Agrees (vfs_handle_device_removed d c name v).1
    unfolding vfs_handle_device_removed
    vfs_handle_device_removed-Agrees name v a = elim (Option-cases (d.find name (v.fs.world))) [
      | inl z ↦ rw (z, vfs_handle_device_removed) a
      | inr (device, z) ↦
          let v' = (lock_from d c v.volume_count 0 device v).1 in
          let locked = lock_from-Agrees v.volume_count 0 device v a in
          rw (z, vfs_handle_device_removed)
            (if-Agrees (length name == 0) _ _ a (world-IsValid v'.handles v'.fs _ locked))
    ]
