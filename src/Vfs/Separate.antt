-- ===== src/Vfs/Separate.antt =====
-- Mount points in src/kernel/vfs.c never lie below each other, however volumes are mounted and unmounted.
use asas_os.Common.{
  ℕ, zero, suc, ◌+◌, ◌≤◌, ◌<◌, ◌≡◌, ◌≢◌, inl, inr, refl, sym, ◌∙◌, Bool, true, false, not, ◌&&◌,
  ◌||◌, List, [], ◌∷◌, ltb, leb, ◌==◌, if◌then◌else◌, arith, Bool-cases, get_or, set, take, length,
  length-set, get_or-set_self, get_or-set_ne, ℕ_discrete,
}
use mathlib.Core.Path.{subst}
use asas_os.Vfs.Paths.{Volume, no_volume, path_has_prefix}
use asas_os.Vfs.State.{max_volumes}
use asas_os.Vfs.Volumes.{overlaps, free_volume}

-- A volume of the first `count` that is in use.
abbrev pub in_use : ℕ → List Volume → ℕ → Bool
in_use count l i = ltb i count && (get_or l i no_volume).valid

-- Mount points fit their buffer, and none is another, or lies below another.
pub record IsSeparate (count : ℕ) (l : List Volume) : Type 0 where
  pub size : length l ≡ max_volumes
  pub counted : count ≤ max_volumes
  pub short : (i : ℕ) → in_use count l i ≡ true → length (get_or l i no_volume).mount_point < 32
  pub apart :
      (i j : ℕ)
      → in_use count l i ≡ true
      → in_use count l j ≡ true
      → i ≢ j
      → path_has_prefix (get_or l i no_volume).mount_point (get_or l j no_volume).mount_point
        ≡ false

-- What the loop over the volumes finds out where it goes to the end.
pub overlaps_lem :
    (mount_point : List ℕ) (count : ℕ) (l : List Volume)
    → overlaps mount_point (take count l) ≡ false
    → (j : ℕ) → in_use count l j ≡ true
    → (path_has_prefix mount_point (get_or l j no_volume).mount_point ≡ false)
      × (path_has_prefix (get_or l j no_volume).mount_point mount_point ≡ false)
unfolding overlaps
overlaps_lem mount_point zero l q j u = absurd (ground (arith, u))
overlaps_lem mount_point (suc count) [] q j u = absurd (ground (arith, u))
overlaps_lem mount_point (suc count) (v ∷ l) q zero u = (ground arith, ground arith)
overlaps_lem mount_point (suc count) (v ∷ l) q (suc j) u =
    overlaps_lem mount_point count l (ground (arith, q)) j (ground (arith, u))

-- The volume that is found is not in use, and is one of the table or the next.
pub free_volume_lem :
    (count start : ℕ) (l : List Volume)
    → start ≤ count
    → count ≤ start + length l
    → (k : ℕ) × (free_volume count start l ≡ start + k)
      × (start + k ≤ count)
      × ((ltb (start + k) count && (get_or l k no_volume).valid) ≡ false)
unfolding free_volume
free_volume_lem count start [] b h = (0, omega arith, omega arith, ground arith)
free_volume_lem count start (v ∷ l) b h = elim (Bool-cases (leb count start || not v.valid)) [
  | inl z ↦ (0, rw (z, free_volume) (omega arith), omega arith, ground arith)
  | inr z ↦
      let (k, q, m, u) = free_volume_lem count (start + 1) l (ground arith) (omega arith) in
      (suc k, rw (z, free_volume) (q ∙ omega arith), omega (arith, m), ground (arith, u))
]

-- A volume is written over one that is not in use.
pub written-IsSeparate :
    (count count' index : ℕ) (l : List Volume) (v : Volume)
    → IsSeparate count l
    → index < max_volumes
    → count' ≡ (if index == count then count + 1 else count)
    → index ≤ count
    → in_use count l index ≡ false
    → length v.mount_point < 32
    → ((j : ℕ)
        → in_use count l j ≡ true
        → (path_has_prefix v.mount_point (get_or l j no_volume).mount_point ≡ false)
          × (path_has_prefix (get_or l j no_volume).mount_point v.mount_point ≡ false))
    → IsSeparate count' (set l index v)
written-IsSeparate count count' index l v s b q le unused short apart =
    let self : get_or (set l index v) index no_volume ≡ v =
      get_or-set_self l index v no_volume (omega (arith, s.size)) in
    let other : (j : ℕ) → index ≢ j → get_or (set l index v) j no_volume ≡ get_or l j no_volume =
      λ j ne. get_or-set_ne l index j v no_volume ne in
    let old : (j : ℕ)
        → index ≢ j
        → in_use count' (set l index v) j ≡ true
        → in_use count l j ≡ true =
      λ j ne u. ground (arith, ne, rw (other j ne) at u) in
    let point : ℕ → List ℕ = λ j. (get_or (set l index v) j no_volume).mount_point in
    record {
      size = length-set l index v ∙ s.size;
      counted = ground (arith, s.counted);
      short = λ i u. elim (ℕ_discrete index i) [
        | yes e ↦ subst (λ x. length (point x) < 32) e (rw self short)
        | no ne ↦ rw (other i ne) (s.short i (old i ne u))
      ];
      apart = λ i j u w ne. elim (ℕ_discrete index i) [
        | yes e ↦
            let far : index ≢ j = subst (λ x. x ≢ j) (sym e) ne in
            subst (λ x. path_has_prefix (point x) (point j) ≡ false) e
              (rw (self, other j far) ((apart j (old j far w)).0))
        | no near ↦ elim (ℕ_discrete index j) [
          | yes e ↦
              subst (λ x. path_has_prefix (point i) (point x) ≡ false) e
                (rw (self, other i near) ((apart i (old i near u)).1))
          | no far ↦ rw (other i near, other j far) (s.apart i j (old i near u) (old j far w) ne)
        ]
      ];
    }

dropped-valid :
    (l : List Volume) (i : ℕ) (v : Volume)
    → v.valid ≡ false
    → (get_or (set l i v) i no_volume).valid ≡ false
dropped-valid [] i v q = refl
dropped-valid (x ∷ l) zero v q = q
dropped-valid (x ∷ l) (suc i) v q = dropped-valid l i v q

-- A volume is no longer in use.
pub dropped-IsSeparate :
    (count index : ℕ) (l : List Volume)
    → IsSeparate count l
    → IsSeparate count (set l index (record (get_or l index no_volume) { valid = false }))
dropped-IsSeparate count index l s =
    let v : Volume = record (get_or l index no_volume) { valid = false } in
    let other : (j : ℕ)
        → in_use count (set l index v) j ≡ true
        → (in_use count l j ≡ true) × (get_or (set l index v) j no_volume ≡ get_or l j no_volume) =
      λ j u. elim (ℕ_discrete index j) [
        | no ne ↦
            let same = get_or-set_ne l index j v no_volume ne in
            (ground (arith, rw same at u), same)
        | yes e ↦ absurd (
            ground (
              arith,
              subst (λ i. (get_or (set l index v) i no_volume).valid ≡ false) e
                  (dropped-valid l index v refl),
            ))
      ] in
    record {
      size = length-set l index v ∙ s.size;
      counted = s.counted;
      short = λ i u. let (was, same) = other i u in rw same (s.short i was);
      apart = λ i j u w ne.
          let (was, same) = other i u in
          let (was', same') = other j w in rw (same, same') (s.apart i j was was' ne);
    }
