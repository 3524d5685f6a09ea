-- ===== src/Partition/Names.antt =====
-- Names, identifiers and checksums of src/kernel/partition.c.
use Prim.Native.Nat.{bit_and, bit_xor}
use asas_os.Common.{
  ℕ, zero, suc, ◌+◌, ◌-◌, ◌/◌, ◌%◌, ◌≤◌, ◌<◌, ◌≡◌, refl, Bool, true, false, ◌&&◌, ◌||◌, List, [],
  ◌∷◌, ◌++◌, ltb, leb, ◌==◌, if◌then◌else◌, arith, length, length-append, get_or,
}
use asas_os.Common.Words.{sub_word32}
use asas_os.Common.Texts.{codes}
use asas_os.Block.Device.{copy_name, name_room}

pub hex_digit : ℕ → ℕ
hex_digit value = if ltb value 10 then 48 + value else 97 + value - 10

abbrev order : List ℕ
order = 3 ∷ 2 ∷ 1 ∷ 0 ∷ 5 ∷ 4 ∷ 7 ∷ 6 ∷ 8 ∷ 9 ∷ 10 ∷ 11 ∷ 12 ∷ 13 ∷ 14 ∷ 15 ∷ []

-- The loop of `guid_to_string` over the places that are left.
pub guid_from : List ℕ → ℕ → List ℕ → List ℕ
guid_from guid index [] = []
guid_from guid index (at ∷ rest) =
    let digits =
      hex_digit (get_or guid at 0 / 16)
      ∷ hex_digit (get_or guid at 0 % 16)
      ∷ guid_from guid (index + 1) rest in
    if (index == 4 || index == 6) || (index == 8 || index == 10) then 45 ∷ digits else digits

pub guid_to_string : List ℕ → List ℕ
guid_to_string guid = guid_from guid 0 order

-- The inner loop of `crc32_update`, on one byte.
pub crc32_bits : ℕ → ℕ → ℕ
crc32_bits zero crc = crc
crc32_bits (suc bits) crc =
    crc32_bits bits (bit_xor (crc / 2) (bit_and 0xEDB88320 (sub_word32 0 (bit_and crc 1))))

pub crc32_update : ℕ → List ℕ → ℕ
crc32_update crc [] = crc
crc32_update crc (b ∷ rest) = crc32_update (crc32_bits 8 (bit_xor crc b)) rest

-- One character more, where a condition holds.
pub put : Bool → ℕ → List ℕ → List ℕ
put condition c name = if condition then name ++ (c ∷ []) else name

abbrev with_mark : List ℕ → List ℕ
with_mark name = put (ltb (length name + 2) 16) 112 name

abbrev with_tens : ℕ → List ℕ → List ℕ
with_tens number name = put (leb 10 number && ltb (length name + 1) 16) (48 + number / 10 % 10) name

abbrev with_ones : ℕ → List ℕ → List ℕ
with_ones number name = put (ltb (length name + 1) 16) (48 + number % 10) name

pub make_partition_name : List ℕ → ℕ → List ℕ
make_partition_name name number =
    with_ones number (with_tens number (with_mark (copy_name name_room name)))

length-put :
    (condition : Bool) (c : ℕ) (name : List ℕ)
    → length name ≤ 15
    → (condition ≡ true → length name + 1 < 16)
    → length (put condition c name) ≤ 15
unfolding put
length-put true c name h k = omega (arith, length-append name (c ∷ []), k refl)
length-put false c name h k = h

length-copy_name : (room : ℕ) (name : List ℕ) → length (copy_name room name) ≤ room
unfolding copy_name
length-copy_name zero name = omega arith
length-copy_name (suc room) [] = omega arith
length-copy_name (suc room) (c ∷ name) = omega (arith, length-copy_name room name)

length-with_mark : (name : List ℕ) → length name ≤ 15 → length (with_mark name) ≤ 15
length-with_mark name h = length-put (ltb (length name + 2) 16) 112 name h (λ q. ground arith)

length-with_tens :
    (number : ℕ) (name : List ℕ) → length name ≤ 15 → length (with_tens number name) ≤ 15
length-with_tens number name h =
    length-put (leb 10 number && ltb (length name + 1) 16) (48 + number / 10 % 10) name h
      (λ q. ground arith)

length-with_ones :
    (number : ℕ) (name : List ℕ) → length name ≤ 15 → length (with_ones number name) ≤ 15
length-with_ones number name h =
    length-put (ltb (length name + 1) 16) (48 + number % 10) name h (λ q. ground arith)

-- The name of a partition has room for its NUL in 16 bytes, for any name of the device.
pub length-make_partition_name :
    (name : List ℕ) (number : ℕ) → length (make_partition_name name number) < 16
unfolding make_partition_name
length-make_partition_name name number =
    let base = length-copy_name name_room name in
    let ones = length-with_ones number _ (length-with_tens number _ (length-with_mark _ base)) in
    omega (arith, ones)

-- The check value of CRC-32.
crc32-check : bit_xor (crc32_update 0xFFFFFFFF (codes "123456789")) 0xFFFFFFFF ≡ 0xCBF43926
unfolding crc32_update crc32_bits
crc32-check = refl
