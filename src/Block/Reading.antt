-- ===== src/Block/Reading.antt =====
-- What `block_device_read` of src/kernel/block_device.c gives when the cache agrees with the medium.
use asas_os.Common.{
  ℕ, zero, suc, ◌+◌, ◌≡◌, ◌⊎◌, inl, inr, refl, ap, ap₂, not, ◌&&◌, ◌||◌, none, some, ◌∷◌, ltb, ◌==◌,
  if◌then◌else◌, Bool-cases, Option-cases,
}
use asas_os.Common.Words.{word}
use asas_os.Block.Device.{Device, max_count, request_in_bounds}
use asas_os.Block.Cache.{Content, System, tell}
use asas_os.Block.Transfer.{
  Reader, can_read, read_ahead, wants_ahead, read_block, read_loop, read_device,
}
use asas_os.Block.Coherence.{Coherent}
use asas_os.Block.Fetching.{
  stretch, stretch-Same, Stays, Stays-trans, Fetched, read_block-Stays, read_ahead-Stays,
}

module _ {W : Type 0} (d : Device) (content : W → ℕ → Content) where
  module _ (reader : Reader W)
      (faithful : (lba : ℕ) (s : System W) → Fetched d content s lba (reader d lba 1 s)) where
    read_loop-Stays :
        (rounds lba : ℕ) (s : System W)
        → Coherent d content s
        → Stays d content s (read_loop reader rounds d lba s).1
          × (((read_loop reader rounds d lba s).0 ≡ none)
              ⊎ ((read_loop reader rounds d lba s).0 ≡ some (stretch content s.world lba rounds)))
    unfolding read_loop stretch
    read_loop-Stays zero lba s h = (record { coherent = h; same = λ i. refl }, inr refl)
    read_loop-Stays (suc rounds) lba s h =
        let (one, exact) = read_block-Stays d content reader faithful lba s h in
        let s' = (read_block reader d lba s).1 in
        let ended =
          if rounds == 0 && wants_ahead reader d lba s'
          then read_ahead reader d (lba + 1) s'
          else s' in
        let kept : Stays d content s ended =
          elim (Bool-cases (rounds == 0 && wants_ahead reader d lba s')) [
            | inl f ↦ rw f (
                Stays-trans d content one
                  (read_ahead-Stays d content reader faithful (lba + 1) s' one.coherent))
            | inr f ↦ rw f one
          ] in
        let (more, rest) = read_loop-Stays rounds (lba + 1) ended kept.coherent in
        elim (Option-cases ((read_block reader d lba s).0)) [
          | inl f ↦ rw (f, read_loop) (one, inl refl)
          | inr (c, f) ↦ elim rest [
            | inl g ↦ rw (f, g, read_loop) (Stays-trans d content kept more, inl refl)
            | inr g ↦
                rw (f, g, read_loop)
                  (
                    Stays-trans d content kept more,
                    inr (
                        ap some (
                          ap₂ (λ x l. x ∷ l) (exact c f)
                            (stretch-Same content s.world ended.world (lba + 1) rounds kept.same))),
                  )
          ]
        ]

    -- With a cache that agrees with the medium, a read gives what the medium holds in the blocks that
    -- were asked for, or fails; the medium is not changed, and the cache agrees with it after the read,
    -- with the retries, the cached blocks and the block that is read ahead. The driver's function is
    -- taken to give the medium's contents where it succeeds, and to change neither medium nor cache.
    pub read_device-Stays :
        (lba count : ℕ) (s : System W)
        → Coherent d content s
        → Stays d content s (read_device reader d lba count s).1
          × (((read_device reader d lba count s).0 ≡ none)
              ⊎ ((read_device reader d lba count s).0 ≡ some (stretch content s.world lba count)))
    unfolding read_device
    read_device-Stays lba count s h =
        elim (Bool-cases (not (request_in_bounds d lba count) || not (can_read d))) [
          | inl f ↦
              rw (f, read_device)
                (elim (Bool-cases (ltb d.id max_count)) [
                  | inl z ↦ rw z (
                    record {
                      coherent = record { size = h.size; agrees = h.agrees };
                      same = λ i. refl;
                    },
                    inl refl,
                  )
                  | inr z ↦ rw z (record { coherent = h; same = λ i. refl }, inl refl)
                ])
          | inr f ↦
              let counted =
                tell d
                  (λ t. record t {
                    read_ops = word (t.read_ops + 1);
                    blocks_read = word (t.blocks_read + count);
                  })
                  s in
              let (stays, got) =
                read_loop-Stays count lba counted (record { size = h.size; agrees = h.agrees }) in
              rw (f, read_device) (record { coherent = stays.coherent; same = stays.same }, got)
        ]
