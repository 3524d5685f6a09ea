-- ===== src/Partition.antt =====
-- The partition tables of src/kernel/partition.c: the tests on the entries of an MBR and of a GPT, and
-- the change of an MBR before it is written. The entries are records, not the bytes of the sector.
pub mod Layout
pub mod Mbr
pub mod Gpt
pub mod Names
mod Tests
use asas_os.Common.{
  ℕ, zero, suc, ◌+◌, ◌-◌, ◌^◌, Bool, true, false, not, ◌&&◌, ◌||◌, Option, none, some, List, [],
  ◌∷◌, ◌++◌, ltb, leb, ◌==◌, if◌then◌else◌, length, get_or, set,
}
use asas_os.Common.Words.{word, sub_word}

abbrev pub max_per_disk : ℕ
max_per_disk = 16

-- `MBR_PARTITION_ENTRY`
pub record MbrEntry : Type 0 where
  pub status : ℕ
  pub first_chs : List ℕ
  pub kind : ℕ
  pub last_chs : List ℕ
  pub first_lba : ℕ
  pub sector_count : ℕ

abbrev pub no_entry : MbrEntry
no_entry = record {
  status = 0;
  first_chs = 0 ∷ 0 ∷ 0 ∷ [];
  kind = 0;
  last_chs = 0 ∷ 0 ∷ 0 ∷ [];
  first_lba = 0;
  sector_count = 0;
}

-- `MBR_CANDIDATE`
pub record Candidate : Type 0 where
  pub number : ℕ
  pub kind : ℕ
  pub start_lba : ℕ
  pub block_count : ℕ

pub mbr_type_is_extended : ℕ → Bool
mbr_type_is_extended kind = kind == 0x05 || (kind == 0x0F || kind == 0x85)

-- `start_lba + block_count - 1`
abbrev pub last_lba : ℕ → ℕ → ℕ
last_lba start_lba block_count = sub_word (word (start_lba + block_count)) 1

-- The loop of `mbr_candidate_add`: whether a range meets a candidate.
pub overlaps : ℕ → ℕ → List Candidate → Bool
overlaps start_lba end_lba [] = false
overlaps start_lba end_lba (c ∷ rest) =
    if leb start_lba (last_lba c.start_lba c.block_count) && leb c.start_lba end_lba
    then true
    else overlaps start_lba end_lba rest

-- The range is empty, starts at 0 or does not lie on a device of known size.
pub is_bad_range : ℕ → ℕ → ℕ → Bool
is_bad_range start_lba block_count device_blocks =
    (start_lba == 0 || block_count == 0)
    || (not (device_blocks == 0)
        && (leb device_blocks start_lba || ltb (device_blocks - start_lba) block_count))

pub mbr_candidate_add : List Candidate → ℕ → ℕ → ℕ → ℕ → ℕ → Option (List Candidate)
mbr_candidate_add candidates number kind start_lba block_count device_blocks =
    if leb max_per_disk (length candidates) || is_bad_range start_lba block_count device_blocks
    then none
    else if overlaps start_lba (last_lba start_lba block_count) candidates
    then none
    else some (
        candidates
        ++ (record {
          number = number;
          kind = kind;
          start_lba = start_lba;
          block_count = block_count;
        }
            ∷ []))

abbrev pub is_blank : MbrEntry → Bool
is_blank e = e.kind == 0 && e.sector_count == 0

-- The entries that `mbr_table_valid` refuses by their type.
pub is_refused : MbrEntry → Bool
is_refused e =
    (e.kind == 0 || e.sector_count == 0) || (e.kind == 0xEE || mbr_type_is_extended e.kind)

-- The loop of `mbr_table_valid` over the entries, the first at an index: the candidates, or none.
pub collect : ℕ → List MbrEntry → List Candidate → ℕ → Option (List Candidate)
collect index [] candidates device_blocks = some candidates
collect index (e ∷ rest) candidates device_blocks =
    if is_blank e
    then collect (index + 1) rest candidates device_blocks
    else if is_refused e
    then none
    else elim (mbr_candidate_add candidates (index + 1) e.kind e.first_lba e.sector_count
        device_blocks) [
          | none ↦ none
          | some candidates' ↦ collect (index + 1) rest candidates' device_blocks
        ]

pub mbr_table_valid : List MbrEntry → ℕ → Bool
mbr_table_valid entries device_blocks = elim (collect 0 entries [] device_blocks) [
  | none ↦ false
  | some _ ↦ true
]

-- An entry of a protective MBR is among the entries.
pub has_protective : List MbrEntry → Bool
has_protective [] = false
has_protective (e ∷ rest) = if e.kind == 0xEE then true else has_protective rest

-- The entry that `partition_mbr_commit` writes to its slot, or none where it refuses.
pub edit_entry : MbrEntry → Bool → ℕ → ℕ → ℕ → Option MbrEntry
edit_entry old deleting kind start_lba block_count =
    if deleting
    then (if old.kind == 0 then none else some no_entry)
    else if ((kind == 0 || kind == 0xEE) || (mbr_type_is_extended kind || start_lba == 0))
        || (block_count == 0 || (ltb 0xFFFFFFFF start_lba || ltb 0xFFFFFFFF block_count))
    then none
    else some (record {
      status = 0;
      first_chs = 0 ∷ 0 ∷ 0 ∷ [];
      kind = kind;
      last_chs = 0 ∷ 0 ∷ 0 ∷ [];
      first_lba = start_lba;
      sector_count = block_count;
    })

-- The entries that `partition_mbr_commit` writes back, from those it has read.
pub mbr_change : List MbrEntry → ℕ → Bool → ℕ → ℕ → ℕ → ℕ → Option (List MbrEntry)
mbr_change entries slot deleting kind start_lba block_count device_blocks =
    if leb 4 slot || has_protective entries
    then none
    else elim (edit_entry (get_or entries slot no_entry) deleting kind start_lba block_count) [
      | none ↦ none
      | some e ↦
          if mbr_table_valid (set entries slot e) device_blocks
          then some (set entries slot e)
          else none
    ]
