-- ===== src/Block/Flag.antt =====
-- The flags `BLOCK_DEVICE_FLAG_*` of include/block_device.h.
use asas_os.Common.{ℕ}

abbrev pub read_only : ℕ
read_only = 0x01

abbrev pub removable : ℕ
removable = 0x02

abbrev pub optical : ℕ
optical = 0x04

abbrev pub partition : ℕ
partition = 0x08

abbrev pub hot_plug : ℕ
hot_plug = 0x10

abbrev pub no_cache : ℕ
no_cache = 0x20
