-- ===== src/Partition/Mbr.antt =====
-- What `mbr_table_valid` of src/kernel/partition.c accepts, and what a change of the table writes.
use mathlib.Core.Path.{subst}
use mathlib.Core.Option.{some_inj}
use asas_os.Common.{
  ℕ, zero, suc, ◌+◌, ◌^◌, ◌<◌, ◌≡◌, ◌≢◌, inl, inr, refl, sym, ◌∙◌, ap, Bool, true, false, ◌||◌,
  some, List, [], ◌∷◌, ◌++◌, ltb, leb, ◌==◌, if◌then◌else◌, arith, get_or, set, Bool-cases,
  Option-cases, get_or-set_ne,
}
use asas_os.Partition.{
  MbrEntry, Candidate, mbr_type_is_extended, no_entry, is_blank, is_refused, mbr_candidate_add,
  collect, mbr_table_valid, has_protective, edit_entry, mbr_change,
}
use asas_os.Partition.Layout.{Range, IsLayout, ranges, mbr_candidate_add-IsLayout}

-- The ranges of the entries in use.
abbrev pub used_ranges : List MbrEntry → List Range
used_ranges [] = []
used_ranges (e ∷ rest) =
    if is_blank e then used_ranges rest else (e.first_lba, e.sector_count) ∷ used_ranges rest

abbrev pub IsSmall : MbrEntry → Type 0
IsSmall e = (e.first_lba < 2 ^ 32) × (e.sector_count < 2 ^ 32)

-- The fields of the entries are `UINT32`.
abbrev pub AllSmall : List MbrEntry → Type 0
AllSmall [] = Unit
AllSmall (e ∷ rest) = IsSmall e × AllSmall rest

append-nil : (l : List Range) → l ++ [] ≡ l
append-nil [] = refl
append-nil (r ∷ l) = ap (λ t. r ∷ t) (append-nil l)

append_assoc : (l : List Range) (r : Range) (k : List Range) → (l ++ (r ∷ [])) ++ k ≡ l ++ (r ∷ k)
append_assoc [] r k = refl
append_assoc (p ∷ l) r k = ap (λ t. p ∷ t) (append_assoc l r k)

collect-IsLayout :
    (index blocks : ℕ) (entries : List MbrEntry) (l : List Candidate) {l' : List Candidate}
    → IsLayout blocks (ranges l)
    → AllSmall entries
    → collect index entries l blocks ≡ some l'
    → IsLayout blocks (ranges l') × (ranges l' ≡ ranges l ++ used_ranges entries)
unfolding collect
collect-IsLayout index blocks [] l h s q =
    subst (λ k. IsLayout blocks (ranges k) × (ranges k ≡ ranges l ++ [])) (some_inj.0 q)
      (h, sym (append-nil (ranges l)))
collect-IsLayout index blocks (e ∷ rest) l h ((a, b), s) q = elim (Bool-cases (is_blank e)) [
  | inl z ↦ rw z (collect-IsLayout (index + 1) blocks rest l h s (rw z at q))
  | inr z ↦ elim (Bool-cases (is_refused e)) [
    | inl y ↦ absurd (ground (arith, rw (z, y) at q))
    | inr y ↦
        elim (Option-cases
          (mbr_candidate_add l (index + 1) e.kind e.first_lba e.sector_count blocks)) [
            | inl x ↦ absurd (ground (arith, rw (z, y, x) at q))
            | inr (k, x) ↦
                let (on, same) =
                  mbr_candidate_add-IsLayout l (index + 1) e.kind e.first_lba e.sector_count blocks
                    h (omega arith) x in
                let (all, eq) =
                  collect-IsLayout (index + 1) blocks rest k on s (rw (z, y, x) at q) in
                (
                  all,
                  rw z (
                      eq
                      ∙ ap (λ t. t ++ used_ranges rest) same
                      ∙ append_assoc (ranges l) (e.first_lba, e.sector_count) (used_ranges rest)),
                )
          ]
  ]
]

-- A table that is accepted has entries in use that are not empty, start behind block 0, lie on the
-- device where its size is known, and do not meet each other.
pub mbr_table_valid-IsLayout :
    (entries : List MbrEntry) (device_blocks : ℕ)
    → AllSmall entries
    → mbr_table_valid entries device_blocks ≡ true
    → IsLayout device_blocks (used_ranges entries)
unfolding mbr_table_valid
mbr_table_valid-IsLayout entries device_blocks s q =
    elim (Option-cases (collect 0 entries [] device_blocks)) [
      | inl z ↦ absurd (ground (arith, rw (z, mbr_table_valid) at q))
      | inr (l, z) ↦
          let (all, same) = collect-IsLayout 0 device_blocks entries [] tt s z in
          subst (IsLayout device_blocks) same all
    ]

edit_entry-IsSmall :
    (old : MbrEntry) (deleting : Bool) (kind start_lba block_count : ℕ) {e : MbrEntry}
    → edit_entry old deleting kind start_lba block_count ≡ some e
    → IsSmall e
unfolding edit_entry
edit_entry-IsSmall old true kind start_lba block_count q = elim (Bool-cases (old.kind == 0)) [
  | inl z ↦ absurd (ground (arith, rw z at q))
  | inr z ↦ subst IsSmall (some_inj.0 (rw z at q)) (omega arith, omega arith)
]
edit_entry-IsSmall old false kind start_lba block_count q =
    elim (Bool-cases (
      ((kind == 0 || kind == 0xEE) || (mbr_type_is_extended kind || start_lba == 0))
      || (block_count == 0 || (ltb 0xFFFFFFFF start_lba || ltb 0xFFFFFFFF block_count)))) [
        | inl z ↦ absurd (ground (arith, rw z at q))
        | inr z ↦ subst IsSmall (some_inj.0 (rw z at q)) (ground arith, ground arith)
      ]

AllSmall-set :
    (entries : List MbrEntry) (slot : ℕ) (e : MbrEntry)
    → AllSmall entries
    → IsSmall e
    → AllSmall (set entries slot e)
AllSmall-set [] slot e s h = tt
AllSmall-set (f ∷ rest) zero e (a, s) h = (h, s)
AllSmall-set (f ∷ rest) (suc slot) e (a, s) h = (a, AllSmall-set rest slot e s h)

-- A change of the table that is not refused, of an entry to a new range or of an entry that is
-- deleted, leaves the other entries as they were and leads to a table whose entries in use are not
-- empty, lie on the device and do not meet each other.
pub mbr_change-IsLayout :
    (entries : List MbrEntry) (slot : ℕ) (deleting : Bool)
    (kind start_lba block_count device_blocks : ℕ) {out : List MbrEntry}
    → AllSmall entries
    → mbr_change entries slot deleting kind start_lba block_count device_blocks ≡ some out
    → IsLayout device_blocks (used_ranges out)
      × (slot < 4)
      × ((k : ℕ) → slot ≢ k → get_or out k no_entry ≡ get_or entries k no_entry)
unfolding mbr_change
mbr_change-IsLayout entries slot deleting kind start_lba block_count device_blocks s q =
    elim (Bool-cases (leb 4 slot || has_protective entries)) [
      | inl z ↦ absurd (ground (arith, rw z at q))
      | inr z ↦
          elim (Option-cases
            (edit_entry (get_or entries slot no_entry) deleting kind start_lba block_count)) [
              | inl y ↦ absurd (ground (arith, rw (z, y) at q))
              | inr (e, y) ↦
                  elim (Bool-cases (mbr_table_valid (set entries slot e) device_blocks)) [
                    | inl x ↦
                        let small =
                          edit_entry-IsSmall (get_or entries slot no_entry) deleting kind start_lba
                            block_count y in
                        subst
                          (λ out.
                            IsLayout device_blocks (used_ranges out)
                            × (slot < 4)
                            × ((k : ℕ)
                                → slot ≢ k
                                → get_or out k no_entry ≡ get_or entries k no_entry))
                          (some_inj.0 (rw (z, y, x) at q))
                          (
                            mbr_table_valid-IsLayout (set entries slot e) device_blocks
                                (AllSmall-set entries slot e s small) x,
                            ground arith,
                            λ k n. get_or-set_ne entries slot k e no_entry n,
                          )
                    | inr x ↦ absurd (ground (arith, rw (z, y, x) at q))
                  ]
            ]
    ]
