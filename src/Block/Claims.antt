-- ===== src/Block/Claims.antt =====
-- An entry of the cache of src/kernel/block_device.c between its allocation and its contents.
use mathlib.Core.Path.{subst}
use asas_os.Common.{
  ℕ, ◌<◌, ◌≡◌, ◌≢◌, ◌⊎◌, inl, inr, refl, sym, ◌∙◌, ap, ◌||◌, none, some, ltb, arith, Bool-cases,
  get_or, length, length-set, get_or-set_self, get_or-set_ne,
}
use asas_os.Block.Flag
use asas_os.Block.Device.{Device, has_flag}
use asas_os.Block.Cache.{
  Content, Entry, no_entry, System, entry_at, next_slot, claim, cache_find, cache_allocate,
  write_entry, drop_entry, cache_entry_count, cache_max_block_size,
}
use asas_os.Block.Coherence.{Agrees, Coherent, Same, Agrees-Same, Agrees-set, cache_find-matches}

module _ {W : Type 0} (d : Device) (content : W → ℕ → Content) where
  -- All entries but one agree with the medium, and this one is for a given block.
  pub record Claimed (slot lba : ℕ) (s : System W) : Type 0 where
    pub bound : slot < length s.cache
    pub size : length s.cache ≡ cache_entry_count
    pub others : (k : ℕ) → k ≢ slot → Agrees d content s.world (entry_at s k)
    pub address : (entry_at s slot).lba ≡ lba

  pub Claimed-write :
      (slot lba : ℕ) (s : System W) (c : Content)
      → Claimed slot lba s
      → c ≡ content s.world lba
      → Coherent d content (write_entry s slot c)
  Claimed-write slot lba s c h q = record {
    size = length-set s.cache slot _ ∙ h.size;
    agrees =
        Agrees-set d content s.world s.cache slot _ h.bound h.others
          (λ _ _ _. q ∙ ap (content s.world) (sym h.address));
  }

  pub Claimed-drop :
      (slot lba : ℕ) (s : System W) → Claimed slot lba s → Coherent d content (drop_entry s slot)
  Claimed-drop slot lba s h = record {
    size = length-set s.cache slot _ ∙ h.size;
    agrees = Agrees-set d content s.world s.cache slot _ h.bound h.others (λ v. cc);
  }

  pub Coherent-Same :
      (s s' : System W)
      → Coherent d content s
      → s'.cache ≡ s.cache
      → Same d content s.world s'.world
      → Coherent d content s'
  Coherent-Same s s' h q same = record {
    size = ap length q ∙ h.size;
    agrees = λ k.
        subst (λ l. Agrees d content s'.world (get_or l k no_entry)) (sym q)
          (Agrees-Same d content s.world s'.world (entry_at s k) same (h.agrees k));
  }

  pub Claimed-Same :
      (slot lba : ℕ) (s s' : System W)
      → Claimed slot lba s
      → s'.cache ≡ s.cache
      → Same d content s.world s'.world
      → Claimed slot lba s'
  Claimed-Same slot lba s s' h q same = record {
    bound = subst (λ l. slot < length l) (sym q) h.bound;
    size = ap length q ∙ h.size;
    others = λ k n.
        subst (λ l. Agrees d content s'.world (get_or l k no_entry)) (sym q)
          (Agrees-Same d content s.world s'.world (entry_at s k) same (h.others k n));
    address = ap (λ l. (get_or l slot no_entry).lba) q ∙ h.address;
  }

  pub found-Claimed :
      (lba : ℕ) (s : System W) (slot : ℕ)
      → Coherent d content s
      → cache_find d lba s ≡ some slot
      → Claimed slot lba s
  found-Claimed lba s slot h q =
      let (lt, m) = cache_find-matches d lba s slot q in
      record { bound = lt; size = h.size; others = λ k _. h.agrees k; address = ground arith }

  claim-size : (lba : ℕ) (s : System W) → length (claim d lba s).cache ≡ length s.cache
  claim-size lba s = length-set s.cache (next_slot s) _

  claim-Claimed :
      (lba : ℕ) (s : System W) → Coherent d content s → Claimed (next_slot s) lba (claim d lba s)
  claim-Claimed lba s h =
      let lt : next_slot s < length s.cache = omega (arith, h.size) in
      record {
        bound = omega (arith, lt, claim-size lba s);
        size = claim-size lba s ∙ h.size;
        others = λ k n.
            subst (Agrees d content s.world)
              (sym (get_or-set_ne s.cache (next_slot s) k _ no_entry (λ p. n (sym p))))
              (h.agrees k);
        address = ap (λ (e : Entry). e.lba) (get_or-set_self s.cache (next_slot s) _ no_entry lt);
      }

  pub allocate-Claimed :
      (lba : ℕ) (s : System W)
      → Coherent d content s
      → (((cache_allocate d lba s).0 ≡ none) × ((cache_allocate d lba s).1 ≡ s))
        ⊎ ((slot : ℕ) × ((cache_allocate d lba s).0 ≡ some slot)
            × Claimed slot lba ((cache_allocate d lba s).1)
            × ((cache_allocate d lba s).1.world ≡ s.world))
  unfolding cache_allocate
  allocate-Claimed lba s h =
      elim (Bool-cases
        (has_flag d Flag.no_cache || ltb cache_max_block_size d.logical_block_size)) [
          | inl f ↦ inl (rw f (refl, refl))
          | inr f ↦ inr (next_slot s, rw f refl, rw f (claim-Claimed lba s h), rw f refl)
        ]

  -- A hit holds what the medium holds.
  pub found-exact :
      (lba : ℕ) (s : System W) (slot : ℕ)
      → Coherent d content s
      → cache_find d lba s ≡ some slot
      → (entry_at s slot).content ≡ content s.world lba
  found-exact lba s slot h q =
      let (lt, m) = cache_find-matches d lba s slot q in
      h.agrees slot (ground arith) (ground arith) (ground arith)
      ∙ ap (content s.world) ((found-Claimed lba s slot h q).address)
