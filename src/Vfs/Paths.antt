-- ===== src/Vfs/Paths.antt =====
-- Paths of src/kernel/vfs.c.
use asas_os.Common.{
  ℕ, ◌+◌, ◌-◌, Bool, true, false, not, ◌&&◌, Option, none, some, List, [], ◌∷◌, ltb, leb, ◌==◌,
  if◌then◌else◌, take, drop, length,
}
use asas_os.Common.Texts.{codes}

-- `'/'`
abbrev pub slash : ℕ
slash = 47

-- `path[index]` behind the prefix: the end of the path, or a separator.
unfoldable pub is_end : List ℕ → Bool
is_end [] = true
is_end (c ∷ _) = c == slash

unfoldable pub path_has_prefix : List ℕ → List ℕ → Bool
path_has_prefix path [] = is_end path
path_has_prefix [] (p ∷ prefix) = false
path_has_prefix (c ∷ path) (p ∷ prefix) =
    if not (c == p) then false else path_has_prefix path prefix

unfoldable pub strings_equal : List ℕ → List ℕ → Bool
strings_equal [] [] = true
strings_equal [] (_ ∷ _) = false
strings_equal (_ ∷ _) [] = false
strings_equal (x ∷ left) (y ∷ right) = if not (x == y) then false else strings_equal left right

unfoldable pub to_lower : ℕ → ℕ
to_lower value = if leb 65 value && leb value 90 then value - 65 + 97 else value

unfoldable pub paths_equal : List ℕ → List ℕ → Bool
paths_equal [] [] = true
paths_equal [] (_ ∷ _) = false
paths_equal (_ ∷ _) [] = false
paths_equal (x ∷ left) (y ∷ right) =
    if not (to_lower x == to_lower y) then false else paths_equal left right

-- What is left of a string once it is copied to a buffer, with its NUL.
unfoldable pub copy_string : ℕ → List ℕ → List ℕ
copy_string capacity source = take (capacity - 1) source

-- `VFS_VOLUME_INFO`
pub record Volume : Type 0 where
  pub valid : Bool
  pub is_cdrom : Bool
  pub is_removable : Bool
  pub read_only : Bool
  pub no_exec : Bool
  pub target : ℕ
  pub lun : ℕ
  pub fs_type : ℕ
  pub mount_point : List ℕ
  pub label : List ℕ
  pub device_name : List ℕ
  pub partition_type : List ℕ
  pub uuid : List ℕ

abbrev pub no_volume : Volume
no_volume = record {
  valid = false;
  is_cdrom = false;
  is_removable = false;
  read_only = false;
  no_exec = false;
  target = 0;
  lun = 0;
  fs_type = 0;
  mount_point = [];
  label = [];
  device_name = [];
  partition_type = [];
  uuid = [];
}

-- What the path is relative to: the rest behind a prefix, or the root.
abbrev pub relative_to : ℕ → List ℕ → List ℕ
relative_to n path = elim (drop n path) [ [] ↦ slash ∷ [] | c ∷ rest ↦ c ∷ rest ]

-- The loop of `vfs_select_volume_for_path` over the volumes, the first at an index, with the best one
-- so far and the length of its mount point.
unfoldable pub best_from : List ℕ → ℕ → List Volume → Option ℕ → ℕ → Option ℕ × ℕ
best_from path index [] best best_length = (best, best_length)
best_from path index (v ∷ rest) best best_length =
    let longer =
      v.valid && (ltb best_length (length v.mount_point) && path_has_prefix path v.mount_point) in
    best_from path (index + 1) rest (if longer then some index else best)
      (if longer then length v.mount_point else best_length)

-- The number of the volume in `/disk0` to `/disk7`, with the rest of the path.
unfoldable pub disk_alias : List ℕ → Option (ℕ × List ℕ)
disk_alias path = elim (drop 5 path) [
  | [] ↦ none
  | digit ∷ rest ↦
      if strings_equal (take 5 path) (codes "/disk")
        && ((leb 48 digit && leb digit 55) && is_end rest)
      then some (digit - 48, relative_to 6 path)
      else none
]
