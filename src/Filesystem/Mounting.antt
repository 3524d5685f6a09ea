-- ===== src/Filesystem/Mounting.antt =====
-- `filesystem_mount` and `filesystem_unmount` of src/kernel/filesystem.c.
use asas_os.Common.{
  ℕ, ◌+◌, ◌<◌, ◌≡◌, ◌≢◌, ◌⊎◌, inl, inr, refl, sym, ◌∙◌, ap, true, false, not, ◌&&◌, ◌||◌, none,
  some, leb, ◌==◌, arith, Bool-cases, get_or, set, length-set, get_or-set_self, get_or-set_ne,
  ℕ_discrete,
}
use mathlib.Core.Path.{subst}
use asas_os.Common.Words.{word32}
use asas_os.Filesystem.{
  Driver, Mount, no_mount, Contexts, Table, mount_at, max_mounts, free_slot, filled, next_of,
  is_limited, attach, filesystem_mount,
}
use asas_os.Filesystem.Slots.{
  active_count-length, active_count-set_same, active_count-set_more, IsValid, IsFree,
  free_slot-IsFree, written-IsValid,
}

module _ {W : Type 0} where
  -- Every slot but one is as it was.
  abbrev pub SameBut : ℕ → Table W → Table W → Type 0
  SameBut slot t t' = (k : ℕ) → slot ≢ k → mount_at t' k ≡ mount_at t k

  -- A fresh mount of a device in a slot that was not active.
  pub record Mounted (t : Table W) (device : ℕ) (d : Driver) (slot : ℕ) (t' : Table W)
      : Type 0 where
    pub bound : slot < max_mounts
    pub was_free : (mount_at t slot).active ≡ false
    pub active : (mount_at t' slot).active ≡ true
    pub on_device : (mount_at t' slot).device ≡ some device
    pub by_driver : (mount_at t' slot).driver ≡ some d
    pub unreferenced : (mount_at t' slot).reference_count ≡ 0
    pub generation : (mount_at t' slot).generation ≡ t.next_generation
    pub others : SameBut slot t t'

  module _ (c : Contexts W) where
    -- The driver sets the context and the flags of the mount alone.
    pub attach-keeps :
        (d : Driver) (device : ℕ) (m : Mount) (w : W)
        → let m' = (attach c d device m w).0 in
          (m'.id ≡ m.id)
          × (m'.device ≡ m.device)
          × (m'.driver ≡ m.driver)
          × (m'.active ≡ m.active)
          × (m'.reference_count ≡ m.reference_count)
          × (m'.generation ≡ m.generation)
    unfolding attach
    attach-keeps d device m w =
        let (context, w') = c.create d device w in
        elim (Bool-cases (not (context == 0) && is_limited c d context w')) [
          | inl z ↦ rw (z, attach) (refl, refl, refl, refl, refl, refl)
          | inr z ↦ rw (z, attach) (refl, refl, refl, refl, refl, refl)
        ]

    -- The mount that is written to the slot, and the world.
    abbrev tried : ℕ → Driver → ℕ → ℕ → Table W → Mount × W
    tried device d flags slot t = attach c d device (filled t slot device d flags) t.world

    abbrev failed : ℕ → Driver → ℕ → ℕ → Table W → Table W
    failed device d flags slot t = record t {
      next_generation = next_of t.next_generation;
      world = (tried device d flags slot t).1;
      mounts = set t.mounts slot (record ((tried device d flags slot t).0) { active = false });
    }

    abbrev mounted : ℕ → Driver → ℕ → ℕ → Table W → Table W
    mounted device d flags slot t = record t {
      next_generation = next_of t.next_generation;
      world = (tried device d flags slot t).1;
      mounts = set t.mounts slot ((tried device d flags slot t).0);
      mount_count = word32 (t.mount_count + 1);
    }

    failed-IsValid :
        (device : ℕ) (d : Driver) (flags slot : ℕ) (t : Table W)
        → IsValid t
        → IsFree t.mounts slot
        → IsValid (failed device d flags slot t)
    failed-IsValid device d flags slot t v f =
        written-IsValid t slot t.mount_count (next_of t.next_generation) _
          ((tried device d flags slot t).1) v (omega (arith, f.bound, v.size)) (λ q. cc)
          (v.counted ∙ sym (active_count-set_same t.mounts slot _ f.bound (sym f.inactive)))

    failed-others :
        (device : ℕ) (d : Driver) (flags slot : ℕ) (t : Table W)
        → IsFree t.mounts slot
        → (k : ℕ)
        → (mount_at (failed device d flags slot t) k ≡ mount_at t k)
          ⊎ (((mount_at t k).active ≡ false)
              × ((mount_at (failed device d flags slot t) k).active ≡ false)
              × ((mount_at (failed device d flags slot t) k).reference_count ≡ 0))
    failed-others device d flags slot t f k =
        let m = (tried device d flags slot t).0 in
        let (_, _, _, _, references, _) =
          attach-keeps d device (filled t slot device d flags) t.world in
        elim (ℕ_discrete slot k) [
          | no ne ↦ inl (get_or-set_ne t.mounts slot k _ no_mount ne)
          | yes e ↦ inr (
              subst
                (λ i.
                  ((mount_at t i).active ≡ false)
                  × ((get_or (set t.mounts slot (record m { active = false })) i no_mount).active
                      ≡ false)
                  × ((get_or (set t.mounts slot (record m { active = false })) i
                        no_mount).reference_count
                      ≡ 0))
                e
                (
                  f.inactive,
                  rw (get_or-set_self t.mounts slot (record m { active = false }) no_mount f.bound)
                      refl,
                  rw (get_or-set_self t.mounts slot (record m { active = false }) no_mount f.bound)
                      references,
                ))
        ]

    mounted-IsValid :
        (device : ℕ) (d : Driver) (flags slot : ℕ) (t : Table W)
        → IsValid t
        → IsFree t.mounts slot
        → IsValid (mounted device d flags slot t)
    mounted-IsValid device d flags slot t v f =
        let (own_id, on_device, by_driver, active, _, _) =
          attach-keeps d device (filled t slot device d flags) t.world in
        let more =
          active_count-set_more t.mounts slot ((tried device d flags slot t).0) f.bound f.inactive
            active in
        let room = active_count-length (set t.mounts slot ((tried device d flags slot t).0)) in
        written-IsValid t slot (word32 (t.mount_count + 1)) (next_of t.next_generation)
          ((tried device d flags slot t).0) ((tried device d flags slot t).1) v
          (omega (arith, f.bound, v.size))
          (λ q. record {
            own_id = own_id;
            on_device = (device, on_device);
            by_driver = (d, by_driver);
          })
          (omega (
            arith,
            more,
            room,
            v.size,
            v.counted,
            length-set t.mounts slot ((tried device d flags slot t).0),
          ))

    mounted-Mounted :
        (device : ℕ) (d : Driver) (flags slot : ℕ) (t : Table W)
        → IsValid t
        → IsFree t.mounts slot
        → Mounted t device d slot (mounted device d flags slot t)
    mounted-Mounted device d flags slot t v f =
        let m = (tried device d flags slot t).0 in
        let (_, on_device, by_driver, active, references, generation) =
          attach-keeps d device (filled t slot device d flags) t.world in
        let self : get_or (set t.mounts slot m) slot no_mount ≡ m =
          get_or-set_self t.mounts slot m no_mount f.bound in
        record {
          bound = omega (arith, f.bound, v.size);
          was_free = f.inactive;
          active = ap (λ (x : Mount). x.active) self ∙ active;
          on_device = ap (λ (x : Mount). x.device) self ∙ on_device;
          by_driver = ap (λ (x : Mount). x.driver) self ∙ by_driver;
          unreferenced = ap (λ (x : Mount). x.reference_count) self ∙ references;
          generation = ap (λ (x : Mount). x.generation) self ∙ generation;
          others = λ k n. get_or-set_ne t.mounts slot k m no_mount n;
        }

    -- A mount fails, and then a mount that changed was and is inactive and nothing refers to it, or it
    -- fills a slot that was not active with a mount of the device that nothing refers to. The table
    -- stays well formed.
    pub filesystem_mount_lem :
        (device : ℕ) (d : Driver) (flags : ℕ) (t : Table W)
        → IsValid t
        → let (found, t') = filesystem_mount c device d flags t in
          IsValid t'
          × (((found ≡ none)
                × ((k : ℕ)
                    → (mount_at t' k ≡ mount_at t k)
                      ⊎ (((mount_at t k).active ≡ false)
                          × ((mount_at t' k).active ≡ false)
                          × ((mount_at t' k).reference_count ≡ 0))))
              ⊎ ((slot : ℕ) × (found ≡ some slot) × Mounted t device d slot t'))
    unfolding filesystem_mount
    filesystem_mount_lem device d flags t v =
        elim (Bool-cases (leb max_mounts t.mount_count || free_slot 0 t.mounts == max_mounts)) [
          | inl z ↦ rw (z, filesystem_mount) (v, inl (refl, λ k. inl refl))
          | inr z ↦ elim (free_slot-IsFree t.mounts 0) [
            | inr q ↦ absurd (ground (arith, v.size))
            | inl (k, q, f) ↦
                let free : IsFree t.mounts (free_slot 0 t.mounts) =
                  subst (IsFree t.mounts) {x = k} (omega arith) f in
                elim (Bool-cases ((tried device d flags (free_slot 0 t.mounts) t).0.context == 0)) [
                  | inl y ↦
                      rw (z, y, filesystem_mount)
                        (
                          failed-IsValid device d flags (free_slot 0 t.mounts) t v free,
                          inl (refl, failed-others device d flags (free_slot 0 t.mounts) t free),
                        )
                  | inr y ↦
                      rw (z, y, filesystem_mount)
                        (
                          mounted-IsValid device d flags (free_slot 0 t.mounts) t v free,
                          inr (
                            free_slot 0 t.mounts,
                            refl,
                            mounted-Mounted device d flags (free_slot 0 t.mounts) t v free,
                          ),
                        )
                ]
          ]
        ]
