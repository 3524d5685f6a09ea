-- ===== src/Block/Coherence.antt =====
-- The cache of src/kernel/block_device.c agrees with the medium.
use mathlib.Core.Path.{subst}
use mathlib.Core.Option.{some_inj}
use asas_os.Common.{
  ℕ, suc, ◌+◌, ◌<◌, ◌≡◌, ◌≢◌, inl, inr, sym, ◌∙◌, ap, true, some, List, [], ◌∷◌, arith, Bool-cases,
  get_or, set, length, get_or-set_self, get_or-set_ne, ℕ_discrete,
}
use asas_os.Block.Flag
use asas_os.Block.Device.{Device, has_flag}
use asas_os.Block.Cache.{
  Content, Entry, no_entry, System, entry_at, matches, find_entry, cache_find, cache_entry_count,
}

module _ {W : Type 0} (d : Device) (content : W → ℕ → Content) where
  -- An entry for a block of the device holds what the medium holds.
  abbrev pub Agrees : W → Entry → Type 0
  Agrees w e =
      e.valid ≡ true
      → e.device_id ≡ d.id
      → e.block_size ≡ d.logical_block_size
      → e.content ≡ content w e.lba

  -- Every entry of the cache agrees with the medium, and the cache has its 16 entries.
  pub record Coherent (s : System W) : Type 0 where
    pub size : length s.cache ≡ cache_entry_count
    pub agrees : (slot : ℕ) → Agrees s.world (entry_at s slot)

  -- The medium holds the same in two worlds.
  abbrev pub Same : W → W → Type 0
  Same w w' = (i : ℕ) → content w' i ≡ content w i

  pub Agrees-Same : (w w' : W) (e : Entry) → Same w w' → Agrees w e → Agrees w' e
  Agrees-Same w w' e same a v i b = a v i b ∙ sym (same e.lba)

  -- An entry that agrees may be written anywhere.
  pub Agrees-set :
      (w : W) (l : List Entry) (slot : ℕ) (e : Entry)
      → slot < length l
      → ((k : ℕ) → k ≢ slot → Agrees w (get_or l k no_entry))
      → Agrees w e
      → (k : ℕ) → Agrees w (get_or (set l slot e) k no_entry)
  Agrees-set w l slot e h others a k = elim (ℕ_discrete slot k) [
    | yes q ↦
        subst (Agrees w)
          (sym (
            ap (λ j. get_or (set l slot e) j no_entry) (sym q)
            ∙ get_or-set_self l slot e no_entry h))
          a
    | no q ↦
        subst (Agrees w) (sym (get_or-set_ne l slot k e no_entry q)) (others k (λ p. q (sym p)))
  ]

find_entry-matches :
    (d : Device) (lba index : ℕ) (l : List Entry) (slot : ℕ)
    → find_entry d lba index l ≡ some slot
    → (k : ℕ) × (slot ≡ index + k) × (k < length l) × (matches d lba (get_or l k no_entry) ≡ true)
unfolding find_entry
find_entry-matches d lba index [] slot h = cc
find_entry-matches d lba index (e ∷ l) slot h = elim (Bool-cases (matches d lba e)) [
  | inl m ↦ (0, omega (arith, some_inj.0 (rw m at h)), omega arith, m)
  | inr m ↦
      let (k, q, lt, f) = find_entry-matches d lba (index + 1) l slot (rw m at h) in
      (suc k, omega arith, omega arith, f)
]

pub cache_find-matches :
    {W : Type 0} (d : Device) (lba : ℕ) (s : System W) (slot : ℕ)
    → cache_find d lba s ≡ some slot
    → (slot < length s.cache) × (matches d lba (entry_at s slot) ≡ true)
unfolding cache_find
cache_find-matches d lba s slot h = elim (Bool-cases (has_flag d Flag.no_cache)) [
  | inl f ↦ absurd (ground arith)
  | inr f ↦
      let (k, q, lt, m) = find_entry-matches d lba 0 s.cache slot (rw f at h) in
      let q' : slot ≡ k = omega arith in
      (omega arith, ap (λ j. matches d lba (entry_at s j)) q' ∙ m)
]
