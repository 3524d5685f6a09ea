-- ===== src/Vfs/Mounts.antt =====
-- Mounting and unmounting in src/kernel/filesystem.c, next to the handles of src/kernel/vfs.c.
use asas_os.Common.{
  ℕ, ◌≡◌, ◌⊎◌, inl, inr, refl, sym, ◌∙◌, ap, false, List, arith, Bool-cases, get_or, ℕ_discrete,
}
use mathlib.Core.Path.{subst}
use asas_os.Common.Count.{count_if-pos, count_if-zero}
use asas_os.Filesystem.{
  Driver, Mount, no_mount, Contexts, Table, mount_at, filesystem_mount, filesystem_unmount,
}
use asas_os.Filesystem.Slots
use asas_os.Filesystem.Mounting.{filesystem_mount_lem}
use asas_os.Filesystem.References.{filesystem_unmount_lem}
use asas_os.Vfs.State.{Handle, no_handle}
use asas_os.Vfs.References.{refers, references, IsValid}

module _ {W : Type 0} where
  -- No handle is open on a mount that is not in use.
  pub inactive-references :
      (handles : List Handle) (t : Table W) (slot : ℕ)
      → IsValid handles t
      → (mount_at t slot).active ≡ false
      → references handles slot ≡ 0
  inactive-references handles t slot a z = count_if-zero (refers slot) handles no_handle (λ i.
      elim (Bool-cases (refers slot (get_or handles i no_handle))) [
        | inr q ↦ q
        | inl q ↦ let (live, _) = a.current i slot q in absurd (ground (arith, live, z))
      ])

  -- Mounts change only where no handle is open on them.
  kept-IsValid :
      (handles : List Handle) (t t' : Table W)
      → IsValid handles t
      → Slots.IsValid t'
      → ((k : ℕ)
          → (mount_at t' k ≡ mount_at t k)
            ⊎ ((references handles k ≡ 0) × ((mount_at t' k).reference_count ≡ 0)))
      → IsValid handles t'
  kept-IsValid handles t t' a valid kept = record {
    table = valid;
    size = a.size;
    referred = λ s. elim (kept s) [
      | inl q ↦ ap (λ (m : Mount). m.reference_count) q ∙ a.referred s
      | inr both ↦ let (unused, zero_) = both in omega (arith, unused, zero_)
    ];
    current = λ k s p. elim (kept s) [
      | inl q ↦
          let (live, generation) = a.current k s p in
          let active = ap (λ (m : Mount). m.active) q in
          (ground arith, ap (λ (m : Mount). m.generation) q ∙ generation)
      | inr both ↦
          let (unused, _) = both in
          absurd (omega (arith, unused, count_if-pos (refers s) handles k no_handle refl p))
    ];
  }

  -- A mount that fills a slot, or fails to, leaves the handles: none was open on that slot.
  pub filesystem_mount-IsValid :
      (c : Contexts W) (device : ℕ) (d : Driver) (flags : ℕ) (handles : List Handle) (t : Table W)
      → IsValid handles t
      → IsValid handles (filesystem_mount c device d flags t).1
  filesystem_mount-IsValid c device d flags handles t a =
      let (valid, either) = filesystem_mount_lem c device d flags t a.table in
      kept-IsValid handles t _ a valid (λ k. elim either [
        | inl kept ↦ elim (kept.1 k) [
          | inl q ↦ inl q
          | inr changed ↦
              let (was, _, unreferenced) = changed in
              inr (inactive-references handles t k a was, unreferenced)
        ]
        | inr (slot, _, m) ↦ elim (ℕ_discrete slot k) [
          | no ne ↦ inl (m.others k ne)
          | yes e ↦ inr (
              subst
                (λ i.
                  (references handles i ≡ 0)
                  × ((mount_at (filesystem_mount c device d flags t).1 i).reference_count ≡ 0))
                e (inactive-references handles t slot a m.was_free, m.unreferenced))
        ]
      ])

  pub filesystem_unmount-IsValid :
      (c : Contexts W) (slot : ℕ) (handles : List Handle) (t : Table W)
      → IsValid handles t
      → IsValid handles (filesystem_unmount c slot t).1
  filesystem_unmount-IsValid c slot handles t a =
      let (q, either) = filesystem_unmount_lem c slot t a.table in
      elim either [
        | inr (_, valid, same) ↦
            kept-IsValid handles t _ a valid (λ k. inl (ap (λ l. get_or l k no_mount) same))
        | inl (did, r) ↦ kept-IsValid handles t _ a r.valid (λ k. elim (ℕ_discrete slot k) [
          | no ne ↦ inl (r.others k ne)
          | yes e ↦ inr (
              subst
                (λ i.
                  (references handles i ≡ 0)
                  × ((mount_at (filesystem_unmount c slot t).1 i).reference_count ≡ 0))
                e
                (let unused : (mount_at t slot).reference_count ≡ 0 = ground (arith, q, did) in
                  (sym (a.referred slot) ∙ unused, r.references ∙ unused)))
        ])
      ]
