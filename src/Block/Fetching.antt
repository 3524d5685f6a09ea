-- ===== src/Block/Fetching.antt =====
-- One block that `block_device_read` of src/kernel/block_device.c gets, when the cache agrees with the
-- medium.
use mathlib.Core.Option.{some_inj}
use asas_os.Common.{
  ℕ, zero, suc, ◌+◌, ◌≡◌, inl, inr, refl, sym, ◌∙◌, ap, ap₂, Option, some, List, [], ◌∷◌, ◌==◌,
  arith, Bool-cases, Option-cases,
}
use asas_os.Common.Words.{word}
use asas_os.Block.Device.{Device, retry_budget}
use asas_os.Block.Cache.{Content, System, cache_find, cache_allocate, cache_store, tell}
use asas_os.Block.Transfer.{Reader, raw_read_from, raw_read_with_retry, read_ahead, read_block}
use asas_os.Block.Coherence.{Coherent, Same}
use asas_os.Block.Claims.{
  Claimed-write, Claimed-drop, Coherent-Same, Claimed-Same, found-Claimed, found-exact,
  allocate-Claimed,
}

-- What the medium holds in a stretch of blocks.
unfoldable pub stretch : {W : Type 0} → (W → ℕ → Content) → W → ℕ → ℕ → List Content
stretch content w lba zero = []
stretch content w lba (suc count) = content w lba ∷ stretch content w (lba + 1) count

pub stretch-Same :
    {W : Type 0} (content : W → ℕ → Content) (w w' : W) (lba count : ℕ)
    → ((i : ℕ) → content w' i ≡ content w i)
    → stretch content w' lba count ≡ stretch content w lba count
unfolding stretch
stretch-Same content w w' lba zero h = refl
stretch-Same content w w' lba (suc count) h =
    ap₂ (λ c l. c ∷ l) (h lba) (stretch-Same content w w' (lba + 1) count h)

module _ {W : Type 0} (d : Device) (content : W → ℕ → Content) where
  -- The state after an operation: coherent, and the medium holds what it held.
  pub record Stays (s s' : System W) : Type 0 where
    pub coherent : Coherent d content s'
    pub same : Same d content s.world s'.world

  pub Stays-trans : {s s' s'' : System W} → Stays s s' → Stays s' s'' → Stays s s''
  Stays-trans a b = record { coherent = b.coherent; same = λ i. b.same i ∙ a.same i }

  -- One block that was asked for past the cache.
  pub record Fetched (s : System W) (lba : ℕ) (r : Option (List Content) × System W) : Type 0 where
    pub kept : r.1.cache ≡ s.cache
    pub same : Same d content s.world r.1.world
    pub exact : (blocks : List Content) → r.0 ≡ some blocks → blocks ≡ content s.world lba ∷ []

  cache_store-Stays :
      (lba : ℕ) (c : Content) (s : System W)
      → Coherent d content s
      → c ≡ content s.world lba
      → Stays s (cache_store d lba c s)
  unfolding cache_store
  cache_store-Stays lba c s h q = elim (Option-cases (cache_find d lba s)) [
    | inr (slot, f) ↦
        rw (f, cache_store)
          record {
            coherent =
                Claimed-write d content slot lba s c (found-Claimed d content lba s slot h f) q;
            same = λ i. refl;
          }
    | inl f ↦ elim (allocate-Claimed d content lba s h) [
      | inl (a, b) ↦ rw (f, a, b, cache_store) record { coherent = h; same = λ i. refl }
      | inr (slot, a, claimed, w) ↦
          rw (f, a, cache_store)
            record {
              coherent =
                  Claimed-write d content slot lba ((cache_allocate d lba s).1) c claimed
                    (q ∙ ap (λ v. content v lba) (sym w));
              same = λ i. ap (λ v. content v i) w;
            }
    ]
  ]

  module _ (reader : Reader W)
      (faithful : (lba : ℕ) (s : System W) → Fetched s lba (reader d lba 1 s)) where
    raw_read_from-Fetched :
        (rounds attempt lba : ℕ) (s : System W)
        → Fetched s lba (raw_read_from reader rounds attempt d lba 1 s)
    unfolding raw_read_from
    raw_read_from-Fetched zero attempt lba s = record {
      kept = refl;
      same = λ i. refl;
      exact = λ b q. absurd (ground arith);
    }
    raw_read_from-Fetched (suc rounds) attempt lba s =
        let (got, s') = reader d lba 1 s in
        let one = faithful lba s in
        let more = raw_read_from-Fetched rounds (attempt + 1) lba s' in
        elim (Option-cases got) [
          | inl f ↦
              rw (f, raw_read_from)
                record {
                  kept = more.kept ∙ one.kept;
                  same = λ i. more.same i ∙ one.same i;
                  exact = λ b q. more.exact b q ∙ ap (λ c. c ∷ []) (one.same lba);
                }
          | inr (blocks, f) ↦ elim (Bool-cases (attempt == 0)) [
            | inl z ↦
                rw (f, z, raw_read_from)
                  record { kept = one.kept; same = one.same; exact = λ b q. one.exact b (f ∙ q) }
            | inr z ↦
                rw (f, z, raw_read_from)
                  record { kept = one.kept; same = one.same; exact = λ b q. one.exact b (f ∙ q) }
          ]
        ]

    pub raw_read-Fetched :
        (lba : ℕ) (s : System W) → Fetched s lba (raw_read_with_retry reader d lba 1 s)
    unfolding raw_read_with_retry
    raw_read-Fetched lba s = raw_read_from-Fetched (suc (retry_budget d)) 0 lba s

    -- A block that is asked for, from the cache or from the device, is the medium's.
    pub read_block-Stays :
        (lba : ℕ) (s : System W)
        → Coherent d content s
        → Stays s (read_block reader d lba s).1
          × ((c : Content) → (read_block reader d lba s).0 ≡ some c → c ≡ content s.world lba)
    unfolding read_block
    read_block-Stays lba s h =
        let missed = tell d (λ t. record t { cache_misses = word (t.cache_misses + 1) }) s in
        let one = raw_read-Fetched lba missed in
        let ok =
          Coherent-Same d content s ((raw_read_with_retry reader d lba 1 missed).1) h one.kept
            one.same in
        elim (Option-cases (cache_find d lba s)) [
          | inr (slot, f) ↦
              rw (f, read_block)
                (
                  record {
                    coherent = record { size = h.size; agrees = h.agrees };
                    same = λ i. refl;
                  },
                  λ c q. sym (some_inj.0 q) ∙ found-exact d content lba s slot h f,
                )
          | inl f ↦ elim (Option-cases ((raw_read_with_retry reader d lba 1 missed).0)) [
            | inl g ↦
                rw (f, g, read_block)
                  (record { coherent = ok; same = one.same }, λ c q. absurd (ground arith))
            | inr (blocks, g) ↦
                rw (f, g ∙ ap some (one.exact blocks g), read_block)
                  (
                    Stays-trans (record { coherent = ok; same = one.same })
                        (cache_store-Stays lba (content s.world lba)
                          ((raw_read_with_retry reader d lba 1 missed).1) ok (sym (one.same lba))),
                    λ c q. sym (some_inj.0 q),
                  )
          ]
        ]

    pub read_ahead-Stays :
        (lba : ℕ) (s : System W) → Coherent d content s → Stays s (read_ahead reader d lba s)
    unfolding read_ahead
    read_ahead-Stays lba s h = elim (allocate-Claimed d content lba s h) [
      | inl (a, b) ↦ rw (a, b, read_ahead) record { coherent = h; same = λ i. refl }
      | inr (slot, a, claimed, w) ↦
          let one = raw_read-Fetched lba ((cache_allocate d lba s).1) in
          let after = (raw_read_with_retry reader d lba 1 ((cache_allocate d lba s).1)).1 in
          let still =
            Claimed-Same d content slot lba ((cache_allocate d lba s).1) after claimed one.kept
              one.same in
          elim (Option-cases
            ((raw_read_with_retry reader d lba 1 ((cache_allocate d lba s).1)).0)) [
              | inl g ↦
                  rw (a, g, read_ahead)
                    record {
                      coherent = Claimed-drop d content slot lba after still;
                      same = λ i. one.same i ∙ ap (λ v. content v i) w;
                    }
              | inr (blocks, g) ↦
                  rw (a, g ∙ ap some (one.exact blocks g), read_ahead)
                    record {
                      coherent =
                          let put =
                            Claimed-write d content slot lba after
                              (content ((cache_allocate d lba s).1.world) lba) still
                              (sym (one.same lba)) in
                          record { size = put.size; agrees = put.agrees };
                      same = λ i. one.same i ∙ ap (λ v. content v i) w;
                    }
            ]
    ]
