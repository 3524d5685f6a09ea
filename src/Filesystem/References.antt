-- ===== src/Filesystem/References.antt =====
-- Unmounting, and the references to a mount, in src/kernel/filesystem.c.
use asas_os.Common.{
  ℕ, ◌+◌, ◌-◌, ◌<◌, ◌≡◌, ◌⊎◌, inl, inr, refl, sym, ◌∙◌, ap, Bool, true, false, not, ◌&&◌, ◌||◌,
  none, ltb, ◌==◌, arith, Bool-cases, length, get_or-set_self, get_or-set_ne, ==_iff,
}
use asas_os.Common.Words.{word32, sub_word32}
use asas_os.Filesystem.{
  Mount, no_mount, Contexts, Table, mount_at, put_mount, max_mounts, can_unmount, close_slot,
  detach, filesystem_unmount, filesystem_mount_acquire, filesystem_mount_release,
}
use asas_os.Filesystem.Slots.{
  active_count-length, active_count-set_same, active_count-set_less, IsValid, written-IsValid,
}
use asas_os.Filesystem.Mounting.{SameBut}

-- A slot of the table whose mount is in use.
abbrev pub is_live : {W : Type 0} → Table W → ℕ → Bool
is_live t slot = ltb slot max_mounts && (mount_at t slot).active

module _ {W : Type 0} where
  -- A mount in use passes the test of its own slot.
  pub live_lem :
      (t : Table W) (slot : ℕ)
      → IsValid t
      → ((ltb slot max_mounts && (mount_at t slot).id == slot) && (mount_at t slot).active)
        ≡ is_live t slot
  live_lem t slot v = elim (Bool-cases ((mount_at t slot).active)) [
    | inr z ↦ ground arith
    | inl z ↦
        let same = (v.opened slot z).own_id in
        ground (arith, (==_iff (mount_at t slot).id slot).1 same)
  ]

  -- A write of the references of a mount.
  referred-IsValid :
      (t : Table W) (slot n : ℕ)
      → IsValid t
      → slot < max_mounts
      → IsValid (put_mount t slot (record (mount_at t slot) { reference_count = n }))
  referred-IsValid t slot n v h =
      let lt : slot < length t.mounts = omega (arith, v.size) in
      written-IsValid t slot t.mount_count t.next_generation _ t.world v h
        (λ a.
          let o = v.opened slot a in
          record { own_id = o.own_id; on_device = o.on_device; by_driver = o.by_driver })
        (v.counted ∙ sym (active_count-set_same t.mounts slot _ lt refl))

  -- What a change of the references of one mount to `n` leaves.
  pub record Referred (t : Table W) (slot n : ℕ) (t' : Table W) : Type 0 where
    pub valid : IsValid t'
    pub here : mount_at t' slot ≡ record (mount_at t slot) { reference_count = n }
    pub others : SameBut slot t t'

  put_mount-Referred :
      (t : Table W) (slot n : ℕ)
      → IsValid t
      → slot < max_mounts
      → Referred t slot n (put_mount t slot (record (mount_at t slot) { reference_count = n }))
  put_mount-Referred t slot n v h = record {
    valid = referred-IsValid t slot n v h;
    here = get_or-set_self t.mounts slot _ no_mount (omega (arith, v.size));
    others = λ k ne. get_or-set_ne t.mounts slot k _ no_mount ne;
  }

  acquire-guard :
      (t : Table W) (slot : ℕ)
      → IsValid t
      → (not (ltb slot max_mounts && (mount_at t slot).id == slot)
          || not ((mount_at t slot).active))
        ≡ not (is_live t slot)
  acquire-guard t slot v = ground (arith, live_lem t slot v)

  release-guard :
      (t : Table W) (slot : ℕ)
      → IsValid t
      → ((ltb slot max_mounts && (mount_at t slot).id == slot)
          && ((mount_at t slot).active && not ((mount_at t slot).reference_count == 0)))
        ≡ (is_live t slot && not ((mount_at t slot).reference_count == 0))
  release-guard t slot v = ground (arith, live_lem t slot v)

  -- A mount is acquired exactly where it is in use, and then has one reference more.
  pub filesystem_mount_acquire_lem :
      (slot : ℕ) (t : Table W)
      → IsValid t
      → ((is_live t slot ≡ true)
          × ((filesystem_mount_acquire slot t).0 ≡ true)
          × Referred t slot
              (word32 ((mount_at t slot).reference_count + 1))
              (filesystem_mount_acquire slot t).1)
        ⊎ ((is_live t slot ≡ false) × (filesystem_mount_acquire slot t ≡ (false, t)))
  unfolding filesystem_mount_acquire
  filesystem_mount_acquire_lem slot t v = elim (Bool-cases (is_live t slot)) [
    | inl z ↦
        let g = acquire-guard t slot v ∙ ap not z in
        inl (
          z,
          rw (g, filesystem_mount_acquire) refl,
          rw (g, filesystem_mount_acquire) (put_mount-Referred t slot _ v (ground arith)),
        )
    | inr z ↦
        let g = acquire-guard t slot v ∙ ap not z in inr (z, rw (g, filesystem_mount_acquire) refl)
  ]

  -- A release takes one reference from a mount in use that has one, and else changes nothing.
  pub filesystem_mount_release_lem :
      (slot : ℕ) (t : Table W)
      → IsValid t
      → (((is_live t slot && not ((mount_at t slot).reference_count == 0)) ≡ true)
          × Referred t slot
              ((mount_at t slot).reference_count - 1)
              (filesystem_mount_release slot t))
        ⊎ (((is_live t slot && not ((mount_at t slot).reference_count == 0)) ≡ false)
            × (filesystem_mount_release slot t ≡ t))
  unfolding filesystem_mount_release
  filesystem_mount_release_lem slot t v =
      elim (Bool-cases (is_live t slot && not ((mount_at t slot).reference_count == 0))) [
        | inl z ↦
            let g = release-guard t slot v ∙ z in
            inl (z, rw (g, filesystem_mount_release) (put_mount-Referred t slot _ v (ground arith)))
        | inr z ↦
            let g = release-guard t slot v ∙ z in inr (z, rw (g, filesystem_mount_release) refl)
      ]

  -- What an unmount leaves behind.
  pub record Closed (t : Table W) (slot : ℕ) (t' : Table W) : Type 0 where
    pub valid : IsValid t'
    pub inactive : (mount_at t' slot).active ≡ false
    pub references : (mount_at t' slot).reference_count ≡ (mount_at t slot).reference_count
    pub others : SameBut slot t t'

  can_unmount_lem :
      (t : Table W) (slot : ℕ)
      → IsValid t
      → can_unmount t slot ≡ (is_live t slot && (mount_at t slot).reference_count == 0)
  unfolding can_unmount
  can_unmount_lem t slot v = ground (arith, live_lem t slot v)

  close_slot-Closed :
      (t : Table W) (slot : ℕ) (w : W)
      → IsValid t
      → is_live t slot ≡ true
      → Closed t slot (close_slot slot (record t { world = w }))
  unfolding close_slot
  close_slot-Closed t slot w v z =
      let h : slot < max_mounts = ground arith in
      let live : (mount_at t slot).active ≡ true = ground arith in
      let lt : slot < length t.mounts = omega (arith, v.size, h) in
      let less =
        active_count-set_less t.mounts slot
          (record (mount_at t slot) { device = none; driver = none; context = 0; active = false })
          lt live refl in
      let self =
        get_or-set_self t.mounts slot
          (record (mount_at t slot) { device = none; driver = none; context = 0; active = false })
          no_mount lt in
      record {
        valid =
            written-IsValid t slot (sub_word32 t.mount_count 1) t.next_generation _ w v h (λ q. cc)
              (omega (arith, less, v.counted, active_count-length t.mounts, v.size));
        inactive = ap (λ (m : Mount). m.active) self;
        references = ap (λ (m : Mount). m.reference_count) self;
        others = λ k ne. get_or-set_ne t.mounts slot k _ no_mount ne;
      }

  -- An unmount succeeds exactly for a mount in use that nothing refers to, and for fat32 only where
  -- the file system was synchronized; then the slot is free. Else the mounts are as they were.
  pub filesystem_unmount_lem :
      (c : Contexts W) (slot : ℕ) (t : Table W)
      → IsValid t
      → let (done, t') = filesystem_unmount c slot t in
        (done ≡ (
          (is_live t slot && (mount_at t slot).reference_count == 0)
          && (detach c (mount_at t slot) t.world).0))
        × (((done ≡ true) × Closed t slot t')
            ⊎ ((done ≡ false) × IsValid t' × (t'.mounts ≡ t.mounts)))
  unfolding filesystem_unmount
  filesystem_unmount_lem c slot t v =
      elim (Bool-cases (is_live t slot && (mount_at t slot).reference_count == 0)) [
        | inr z ↦
            let g = can_unmount_lem t slot v ∙ z in
            (
              rw (g, filesystem_unmount, z) refl,
              inr (
                rw (g, filesystem_unmount) refl,
                rw (g, filesystem_unmount) v,
                rw (g, filesystem_unmount) refl,
              ),
            )
        | inl z ↦
            let g = can_unmount_lem t slot v ∙ z in
            elim (Bool-cases ((detach c (mount_at t slot) t.world).0)) [
              | inl y ↦ (
                rw (g, filesystem_unmount, z, y) refl,
                inl (
                  rw (g, filesystem_unmount, y) refl,
                  rw (g, filesystem_unmount, y)
                      (close_slot-Closed t slot ((detach c (mount_at t slot) t.world).1) v
                        (ground arith)),
                ),
              )
              | inr y ↦ (
                rw (g, filesystem_unmount, z, y) refl,
                inr (
                  rw (g, filesystem_unmount, y) refl,
                  rw (g, filesystem_unmount, y)
                      (record { size = v.size; counted = v.counted; opened = v.opened }),
                  rw (g, filesystem_unmount, y) refl,
                ),
              )
            ]
      ]
