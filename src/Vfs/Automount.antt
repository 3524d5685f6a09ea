-- ===== src/Vfs/Automount.antt =====
-- The mounts that src/kernel/vfs.c makes by itself, and the removal of a device.
use Prim.Native.Nat.{◌%◌, ◌/◌}
use asas_os.Common.{
  ℕ, zero, suc, ◌+◌, ◌-◌, Bool, true, false, not, ◌&&◌, Option, none, some, List, [], ◌∷◌, ◌++◌,
  ◌==◌, if◌then◌else◌, take, length,
}
use asas_os.Common.Texts.{codes}
use asas_os.Vfs.Paths.{strings_equal, copy_string, Volume}

unfoldable pub mount_point_in_use : List ℕ → List Volume → Bool
mount_point_in_use path [] = false
mount_point_in_use path (v ∷ rest) =
    let later = mount_point_in_use path rest in
    if v.valid && strings_equal v.mount_point path then true else later

-- The loop of `append_decimal` over the digits, of which it takes 10 at most; the first to be written
-- comes first.
unfoldable pub digits_from : ℕ → ℕ → List ℕ → List ℕ
digits_from zero number written = written
digits_from (suc rounds) number written =
    let more = digits_from rounds (number / 10) ((48 + number % 10) ∷ written) in
    if number / 10 == 0 then (48 + number % 10) ∷ written else more

unfoldable pub append_decimal : List ℕ → ℕ → ℕ → List ℕ
append_decimal path capacity number =
    path ++ take (capacity - 1 - length path) (digits_from 10 number [])

-- The loops of `choose_auto_mount_point`: the first of so many numbers whose mount point is not in use.
unfoldable pub choose_numbered : ℕ → List ℕ → ℕ → List Volume → Option (List ℕ)
choose_numbered zero stem number volumes = none
choose_numbered (suc rounds) stem number volumes =
    let path = append_decimal (copy_string 32 stem) 32 number in
    let later = choose_numbered rounds stem (number + 1) volumes in
    if mount_point_in_use path volumes then later else some path

-- The loops end within 9 rounds, one more than there are volumes.
abbrev pub choose_rounds : ℕ
choose_rounds = 9

unfoldable pub choose_auto_mount_point : Bool → Bool → List Volume → Option (List ℕ)
choose_auto_mount_point is_cdrom is_removable volumes =
    if is_cdrom
    then choose_numbered choose_rounds (codes "/media/cdrom") 0 volumes
    else if is_removable
    then choose_numbered choose_rounds (codes "/media/usb") 0 volumes
    else if not (mount_point_in_use (codes "/data") volumes)
    then some (copy_string 32 (codes "/data"))
    else choose_numbered choose_rounds (codes "/media/disk") 1 volumes
