-- ===== src/Common/Words.antt =====
-- Unsigned machine words as numbers, with the wrap written out.
use asas_os.Common.{ℕ, ◌+◌, ◌-◌, ◌%◌, ◌^◌}

-- `UINT64` and `UINTN`
abbrev pub word : ℕ → ℕ
word n = n % 2 ^ 64

-- `UINT32`
abbrev pub word32 : ℕ → ℕ
word32 n = n % 2 ^ 32

-- `UINT8`
abbrev pub byte : ℕ → ℕ
byte n = n % 2 ^ 8

-- `a - b` on `UINT64`, for words `a` and `b`
abbrev pub sub_word : ℕ → ℕ → ℕ
sub_word a b = (a + 2 ^ 64 - b) % 2 ^ 64

-- `a - b` on `UINT32`, for words `a` and `b`
abbrev pub sub_word32 : ℕ → ℕ → ℕ
sub_word32 a b = (a + 2 ^ 32 - b) % 2 ^ 32
