-- ===== src/Vfs/Reset.antt =====
-- `vfs_reset_handles` of src/kernel/vfs.c gives back every reference.
use asas_os.Common.{
  ℕ, suc, ◌≡◌, inl, inr, refl, sym, ◌∙◌, ap, true, false, List, [], ◌∷◌, arith, Bool-cases,
  Option-cases, get_or, get_or-replicate, replicate, length, length-replicate, ℕ_discrete, ==_iff,
}
use mathlib.Core.Path.{subst}
use asas_os.Common.Count.{count_if-zero}
use asas_os.Filesystem.{
  Contexts, Table, mount_at, detach, filesystem_mount_release, filesystem_unmount,
}
use asas_os.Filesystem.Slots
use asas_os.Filesystem.References.{is_live, filesystem_mount_release_lem, filesystem_unmount_lem}
use asas_os.Vfs.State.{Vfs, Handle, no_handle, reset_from, vfs_reset_handles}
use asas_os.Vfs.References.{
  refers, refers-other, references, IsCurrent, Referred-same, Referred-IsCurrent,
}
use asas_os.Vfs.Lifetime.{Agrees}

module _ {W : Type 0} where
  -- What is left once every handle of a list is given up.
  record Released (l l' : List Handle) (t t' : Table W) : Type 0 where
    handles : l' ≡ replicate (length l) no_handle
    table : Slots.IsValid t'
    unreferenced : (s : ℕ) → (mount_at t' s).reference_count ≡ 0
    active : (s : ℕ) → (mount_at t' s).active ≡ (mount_at t s).active

  skipped :
      (h : Handle) (l : List Handle) (t : Table W)
      → ((s : ℕ) → refers s h ≡ false)
      → ((s : ℕ) → (mount_at t s).reference_count ≡ references (h ∷ l) s)
      → (s : ℕ) → (mount_at t s).reference_count ≡ references l s
  skipped h l t no_mount count s = ground (arith, no_mount s, count s)

  reset_from-Released :
      (l : List Handle) (t : Table W)
      → Slots.IsValid t
      → ((s : ℕ) → (mount_at t s).reference_count ≡ references l s)
      → ((k : ℕ) → IsCurrent t (get_or l k no_handle))
      → Released l (reset_from l t).0 t (reset_from l t).1
  unfolding reset_from
  reset_from-Released [] t valid count current = record {
    handles = refl;
    table = valid;
    unreferenced = count;
    active = λ s. refl;
  }
  reset_from-Released (h ∷ l) t valid count current = elim (Bool-cases h.used) [
    | inr z ↦
        let r =
          reset_from-Released l t valid (skipped h l t (λ s. ground arith) count)
            (λ k. current (suc k)) in
        rw (z, reset_from)
          (record {
            handles = ap (◌∷◌ no_handle) r.handles;
            table = r.table;
            unreferenced = r.unreferenced;
            active = r.active;
          })
    | inl z ↦ elim (Option-cases h.mount) [
      | inl y ↦
          let r =
            reset_from-Released l t valid (skipped h l t (λ s. rw y (ground arith)) count)
              (λ k. current (suc k)) in
          rw (z, y, reset_from)
            (record {
              handles = ap (◌∷◌ no_handle) r.handles;
              table = r.table;
              unreferenced = r.unreferenced;
              active = r.active;
            })
      | inr (slot, y) ↦
          let here : refers slot h ≡ true = rw (z, y) (ground arith) in
          let (live, _) = current 0 slot here in
          let t' = filesystem_mount_release slot t in
          elim (filesystem_mount_release_lem slot t valid) [
            | inr (none_left, _) ↦ absurd (ground (arith, here, count slot))
            | inl (_, n) ↦
                let r =
                  reset_from-Released l t' n.valid
                    (λ s.
                      let (_, _, m) = Referred-same t t' slot _ s n in
                      elim (ℕ_discrete slot s) [
                        | yes e ↦ ground (
                          arith,
                          m,
                          (==_iff slot s).1 e,
                          subst (λ i. refers i h ≡ true) e here,
                          count s,
                          ap (λ i. (mount_at t i).reference_count) e,
                        )
                        | no ne ↦ ground (arith, m, ne, refers-other h slot s here ne, count s)
                      ])
                    (λ k.
                      Referred-IsCurrent t t' slot _ (get_or l k no_handle) n (current (suc k))) in
                rw (z, y, reset_from)
                  (record {
                    handles = ap (◌∷◌ no_handle) r.handles;
                    table = r.table;
                    unreferenced = r.unreferenced;
                    active =
                        λ s. let (same, _, _) = Referred-same t t' slot _ s n in r.active s ∙ same;
                  })
          ]
    ]
  ]

  -- Once the handles are reset, none is open, and handles and references agree.
  pub vfs_reset_handles-Agrees : (v : Vfs W) → Agrees v → Agrees (vfs_reset_handles v)
  unfolding vfs_reset_handles
  vfs_reset_handles-Agrees v a =
      let r = reset_from-Released v.handles v.fs a.table a.referred a.current in
      let closed : (k : ℕ) → get_or (reset_from v.handles v.fs).0 k no_handle ≡ no_handle = λ k.
        ap (λ l. get_or l k no_handle) r.handles
        ∙ get_or-replicate (length v.handles) k no_handle in
      record {
        table = r.table;
        size = ap length r.handles ∙ length-replicate (length v.handles) no_handle ∙ a.size;
        referred = λ s.
            r.unreferenced s
            ∙ sym (
                count_if-zero (refers s) (reset_from v.handles v.fs).0 no_handle
                  (λ k. rw (closed k) refl));
        current = λ k s q. absurd (ground (arith, rw (closed k) at q));
      }

  -- After a reset every mount in use can be unmounted, as far as its file system lets it.
  pub vfs_reset_handles-unmount :
      (c : Contexts W) (slot : ℕ) (v : Vfs W)
      → Agrees v
      → is_live v.fs slot ≡ true
      → let t = (vfs_reset_handles v).fs in
        (filesystem_unmount c slot t).0 ≡ (detach c (mount_at t slot) t.world).0
  unfolding vfs_reset_handles
  vfs_reset_handles-unmount c slot v a live =
      let r = reset_from-Released v.handles v.fs a.table a.referred a.current in
      let (q, _) = filesystem_unmount_lem c slot (reset_from v.handles v.fs).1 r.table in
      q ∙ ground (arith, live, r.active slot, r.unreferenced slot)
