-- ===== src/Partition/Gpt.antt =====
-- The entries of a GPT in src/kernel/partition.c, and the test that a change has to pass.
use asas_os.Common.{
  ℕ, ◌≤◌, ◌<◌, ◌≡◌, ◌⊎◌, inl, inr, Bool, true, false, not, ◌&&◌, ◌||◌, List, [], ◌∷◌, ltb, leb,
  ◌==◌, if◌then◌else◌, arith, Bool-cases,
}

-- `GPT_HEADER`
pub record Header : Type 0 where
  pub signature : List ℕ
  pub revision : ℕ
  pub header_size : ℕ
  pub header_crc32 : ℕ
  pub reserved : ℕ
  pub current_lba : ℕ
  pub backup_lba : ℕ
  pub first_usable_lba : ℕ
  pub last_usable_lba : ℕ
  pub disk_guid : List ℕ
  pub entries_lba : ℕ
  pub entry_count : ℕ
  pub entry_size : ℕ
  pub entries_crc32 : ℕ

-- `GPT_ENTRY`
pub record GptEntry : Type 0 where
  pub type_guid : List ℕ
  pub unique_guid : List ℕ
  pub first_lba : ℕ
  pub last_lba : ℕ
  pub attributes : ℕ
  pub name : List ℕ

-- On the 16 bytes of a GUID.
unfoldable pub guid_is_zero : List ℕ → Bool
guid_is_zero [] = true
guid_is_zero (b ∷ rest) = if not (b == 0) then false else guid_is_zero rest

pub guid_equal : List ℕ → List ℕ → Bool
guid_equal [] [] = true
guid_equal [] (_ ∷ _) = false
guid_equal (_ ∷ _) [] = false
guid_equal (a ∷ left) (b ∷ right) = if not (a == b) then false else guid_equal left right

-- The inner loop of `gpt_entries_valid`: whether an entry meets one of the earlier ones.
unfoldable pub meets : GptEntry → List GptEntry → Bool
meets e [] = false
meets e (existing ∷ rest) =
    if not (guid_is_zero existing.type_guid)
      && (leb e.first_lba existing.last_lba && leb existing.first_lba e.last_lba)
    then true
    else meets e rest

unfoldable pub is_out : Header → GptEntry → Bool
is_out h e =
    (ltb e.first_lba h.first_usable_lba || ltb h.last_usable_lba e.last_lba)
    || ltb e.last_lba e.first_lba

-- The outer loop, with the entries already passed, the latest first.
unfoldable pub valid_from : Header → List GptEntry → List GptEntry → Bool
valid_from h earlier [] = true
valid_from h earlier (e ∷ rest) =
    let more = valid_from h (e ∷ earlier) rest in
    if guid_is_zero e.type_guid
    then more
    else if is_out h e
    then false
    else if meets e earlier
    then false
    else more

-- On the `entry_count` entries of the table.
unfoldable pub gpt_entries_valid : Header → List GptEntry → Bool
gpt_entries_valid h entries = valid_from h [] entries

-- What two copies of the header have to agree in.
pub gpt_layouts_match : Header → Header → Bool
gpt_layouts_match primary backup =
    ((primary.current_lba == 1 && primary.backup_lba == backup.current_lba)
      && (backup.backup_lba == primary.current_lba
          && primary.first_usable_lba == backup.first_usable_lba))
    && ((primary.last_usable_lba == backup.last_usable_lba
          && primary.entry_count == backup.entry_count)
        && (primary.entry_size == backup.entry_size
            && guid_equal primary.disk_guid backup.disk_guid))

-- The first and the last block of an entry.
abbrev pub Extent : Type 0
Extent = ℕ × ℕ

abbrev pub Clear : Extent → Extent → Type 0
Clear (a, b) (c, d) = (b < c) ⊎ (d < a)

abbrev pub AllClear : Extent → List Extent → Type 0
AllClear r [] = Unit
AllClear r (q ∷ rest) = Clear r q × AllClear r rest

abbrev Cross : List Extent → List Extent → Type 0
Cross l [] = Unit
Cross l (r ∷ rest) = AllClear r l × Cross l rest

-- The extents lie in the usable blocks, are not empty and do not meet each other.
abbrev pub IsUsable : Header → List Extent → Type 0
IsUsable h [] = Unit
IsUsable h ((a, b) ∷ rest) =
    ((h.first_usable_lba ≤ a) × (a ≤ b) × (b ≤ h.last_usable_lba))
    × AllClear (a, b) rest
    × IsUsable h rest

-- The extents of the entries in use.
abbrev pub extents : List GptEntry → List Extent
extents [] = []
extents (e ∷ rest) =
    if guid_is_zero e.type_guid then extents rest else (e.first_lba, e.last_lba) ∷ extents rest

meets-AllClear :
    (e : GptEntry) (l : List GptEntry)
    → meets e l ≡ false
    → AllClear (e.first_lba, e.last_lba) (extents l)
unfolding meets
meets-AllClear e [] q = tt
meets-AllClear e (f ∷ l) q = elim (Bool-cases (guid_is_zero f.type_guid)) [
  | inl z ↦ rw z (meets-AllClear e l (rw z at q))
  | inr z ↦ elim (Bool-cases (leb e.first_lba f.last_lba && leb f.first_lba e.last_lba)) [
    | inl y ↦ absurd (ground (arith, rw (z, y) at q))
    | inr y ↦ rw z (ground arith, meets-AllClear e l (rw (z, y) at q))
  ]
]

Cross-first : (r : Extent) (l k : List Extent) → Cross (r ∷ l) k → AllClear r k × Cross l k
Cross-first r l [] h = (tt, tt)
Cross-first (a, b) l ((c, d) ∷ k) ((clear, h), rest) =
    let (more, cross) = Cross-first (a, b) l k rest in ((ground arith, more), (h, cross))

inside :
    (h : Header) (e : GptEntry)
    → is_out h e ≡ false
    → (h.first_usable_lba ≤ e.first_lba)
      × (e.first_lba ≤ e.last_lba)
      × (e.last_lba ≤ h.last_usable_lba)
unfolding is_out
inside h e y = (ground arith, ground arith, ground arith)

valid_from-IsUsable :
    (h : Header) (earlier entries : List GptEntry)
    → valid_from h earlier entries ≡ true
    → IsUsable h (extents entries) × Cross (extents earlier) (extents entries)
unfolding valid_from
valid_from-IsUsable h earlier [] q = (tt, tt)
valid_from-IsUsable h earlier (e ∷ rest) q = elim (Bool-cases (guid_is_zero e.type_guid)) [
  | inl z ↦ rw z (rw z at (valid_from-IsUsable h (e ∷ earlier) rest (rw z at q)))
  | inr z ↦ elim (Bool-cases (is_out h e)) [
    | inl y ↦ absurd (ground (arith, rw (z, y) at q))
    | inr y ↦ elim (Bool-cases (meets e earlier)) [
      | inl x ↦ absurd (ground (arith, rw (z, y, x) at q))
      | inr x ↦
          let (usable, cross) = valid_from-IsUsable h (e ∷ earlier) rest (rw (z, y, x) at q) in
          let (clear, old) =
            Cross-first (e.first_lba, e.last_lba) (extents earlier) (extents rest)
              (rw z at cross) in
          rw z ((inside h e y, clear, usable), (meets-AllClear e earlier x, old))
    ]
  ]
]

-- A table of entries that is accepted has entries in use that lie in the usable blocks, are not empty
-- and do not meet each other.
pub gpt_entries_valid-IsUsable :
    (h : Header) (entries : List GptEntry)
    → gpt_entries_valid h entries ≡ true
    → IsUsable h (extents entries)
unfolding gpt_entries_valid
gpt_entries_valid-IsUsable h entries q = (valid_from-IsUsable h [] entries q).0
