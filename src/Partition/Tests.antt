-- ===== src/Partition/Tests.antt =====
-- Tables of src/kernel/partition.c with two partitions.
use asas_os.Common.{
  ℕ, ◌<◌, ◌≡◌, ◌≢◌, refl, false, none, List, [], ◌∷◌, arith, get_or, set, replicate,
}
use asas_os.Partition.{
  MbrEntry, no_entry, mbr_type_is_extended, overlaps, is_bad_range, mbr_candidate_add, is_refused,
  collect, mbr_table_valid, has_protective, edit_entry, mbr_change,
}
use asas_os.Partition.Layout.{IsLayout}
use asas_os.Partition.Mbr.{used_ranges, AllSmall, mbr_change-IsLayout}
use asas_os.Partition.Gpt.{
  Header, GptEntry, guid_is_zero, meets, is_out, valid_from, gpt_entries_valid, IsUsable, extents,
  gpt_entries_valid-IsUsable,
}

abbrev first : MbrEntry
first = record no_entry { kind = 0x0C; first_lba = 1; sector_count = 20 }

abbrev second : MbrEntry
second = record no_entry { kind = 0x83; first_lba = 40; sector_count = 24 }

abbrev grown : MbrEntry
grown = record no_entry { kind = 0x0C; first_lba = 1; sector_count = 39 }

abbrev entries : List MbrEntry
entries = first ∷ second ∷ no_entry ∷ no_entry ∷ []

entries-AllSmall : AllSmall entries
entries-AllSmall = (
  (omega arith, omega arith),
  ((omega arith, omega arith), ((omega arith, omega arith), ((omega arith, omega arith), tt))),
)

mbr_change-IsLayout_example :
    IsLayout 64 (used_ranges (set entries 0 grown))
    × (0 < 4)
    × ((k : ℕ) → 0 ≢ k → get_or (set entries 0 grown) k no_entry ≡ get_or entries k no_entry)
unfolding mbr_change has_protective edit_entry mbr_table_valid collect is_refused
    mbr_type_is_extended mbr_candidate_add is_bad_range overlaps
mbr_change-IsLayout_example = mbr_change-IsLayout entries 0 false 0x0C 1 39 64 entries-AllSmall refl

-- One block more meets the second partition.
mbr_change-meets : mbr_change entries 0 false 0x0C 1 40 64 ≡ none
unfolding mbr_change has_protective edit_entry mbr_table_valid collect is_refused
    mbr_type_is_extended mbr_candidate_add is_bad_range overlaps
mbr_change-meets = refl

abbrev header : Header
header = record {
  signature = [];
  revision = 0x10000;
  header_size = 92;
  header_crc32 = 0;
  reserved = 0;
  current_lba = 1;
  backup_lba = 127;
  first_usable_lba = 34;
  last_usable_lba = 94;
  disk_guid = replicate 16 1;
  entries_lba = 2;
  entry_count = 3;
  entry_size = 128;
  entries_crc32 = 0;
}

abbrev entry : ℕ → ℕ → ℕ → GptEntry
entry kind first_lba last_lba = record {
  type_guid = replicate 16 kind;
  unique_guid = replicate 16 2;
  first_lba = first_lba;
  last_lba = last_lba;
  attributes = 0;
  name = [];
}

abbrev gpt : List GptEntry
gpt = entry 7 34 60 ∷ entry 0 50 70 ∷ entry 7 61 94 ∷ []

gpt_entries_valid-IsUsable_example : IsUsable header (extents gpt)
unfolding gpt_entries_valid valid_from meets is_out guid_is_zero
gpt_entries_valid-IsUsable_example = gpt_entries_valid-IsUsable header gpt refl
