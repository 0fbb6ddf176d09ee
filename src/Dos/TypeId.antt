-- ===== src/Dos/TypeId.antt =====
-- The type of a partition in the table of the DOS label, and the bits hidden and lba in it:
-- libparted/labels/dos.c from `flag_id_mapping` to `dos_type_id_set_lba`, `raw_part_is_extended`
-- and `is_skip_type`.
use Prim.Native.Nat.{bit_and, bit_or}
use mathlib.Core.List.{List, [], ◌∷◌}
use parted.Prelude.{ℕ, Bool, true, false, ◌||◌, ◌==◌, Option, none, some, if◌then◌else◌}

abbrev pub partition_linux : ℕ
partition_linux = 0x83

abbrev pub partition_linux_swap : ℕ
partition_linux_swap = 0x82

abbrev pub partition_ext_lba : ℕ
partition_ext_lba = 0x0f

-- PedPartitionFlag.
abbrev pub flag_boot : ℕ
flag_boot = 1

abbrev pub flag_swap : ℕ
flag_swap = 3

abbrev pub flag_hidden : ℕ
flag_hidden = 4

abbrev pub flag_lba : ℕ
flag_lba = 7

-- A type that an entry has by default is 0 in C.
pub record FlagId : Type 0 where
  pub flag : ℕ
  pub type_id : ℕ
  pub alt_type_id : ℕ

abbrev flag_id : ℕ → ℕ → ℕ → FlagId
flag_id flag type_id alt_type_id = record {
  flag = flag;
  type_id = type_id;
  alt_type_id = alt_type_id;
}

-- BLS_BOOT, DIAG, ESP, IRST, LVM, MSFT_RESERVED, PALO, PREP, RAID and SWAP.
abbrev pub flag_id_mapping : List FlagId
flag_id_mapping =
    flag_id 20 0xea 0
    ∷ flag_id 14 0x12 0xde
    ∷ flag_id 18 0xef 0
    ∷ flag_id 17 0x84 0
    ∷ flag_id 6 0x8e 0xfe
    ∷ flag_id 11 0x27 0
    ∷ flag_id 9 0xf0 0
    ∷ flag_id 10 0x41 0
    ∷ flag_id 5 0xfd 0
    ∷ flag_id 3 0x82 0
    ∷ []

abbrev pub first_for : ℕ → List FlagId → Option FlagId
first_for flag [] = none
first_for flag (p ∷ rest) = if p.flag == flag then some p else first_for flag rest

unfoldable pub find_flag_id_mapping : ℕ → Option FlagId
find_flag_id_mapping flag = first_for flag flag_id_mapping

-- The cases of a switch that return true.
abbrev pub one_of : ℕ → List ℕ → Bool
one_of type_id [] = false
one_of type_id (id ∷ ids) = type_id == id || one_of type_id ids

abbrev pub skip_set_system_types : List ℕ
skip_set_system_types =
    0x0f ∷ 0x05 ∷ 0x12 ∷ 0x27 ∷ 0x8e ∷ 0x82 ∷ 0xfd ∷ 0xf0 ∷ 0x41 ∷ 0x84 ∷ 0xef ∷ 0xea ∷ []

unfoldable pub is_skip_type : ℕ → Bool
is_skip_type type_id = one_of type_id skip_set_system_types

-- EXT, FAT12, FAT16, FAT16_LBA, FAT16_SM, FAT32, FAT32_LBA and NTFS, each without and with 0x10.
unfoldable pub supports_hidden : ℕ → Bool
supports_hidden type_id = one_of type_id (
    0x05 ∷ 0x15 ∷ 0x01 ∷ 0x11 ∷ 0x06 ∷ 0x16 ∷ 0x0e ∷ 0x1e ∷ 0x04 ∷ 0x14 ∷ 0x0b ∷ 0x1b ∷ 0x0c ∷ 0x1c
    ∷ 0x07 ∷ 0x17 ∷ [])

unfoldable pub is_hidden : ℕ → Bool
is_hidden type_id = one_of type_id (0x15 ∷ 0x11 ∷ 0x16 ∷ 0x1e ∷ 0x14 ∷ 0x1b ∷ 0x1c ∷ 0x17 ∷ [])

-- `~PART_FLAG_HIDDEN` in a byte is 0xef. The result, and the type that is stored.
unfoldable pub set_hidden : ℕ → Bool → Bool × ℕ
unfolding supports_hidden
set_hidden type_id state =
    if supports_hidden type_id
    then (true, if state then bit_or type_id 0x10 else bit_and type_id 0xef)
    else (false, type_id)

unfoldable pub supports_lba : ℕ → Bool
supports_lba type_id =
    one_of type_id (0x06 ∷ 0x16 ∷ 0x0e ∷ 0x1e ∷ 0x0b ∷ 0x1b ∷ 0x0c ∷ 0x1c ∷ 0x05 ∷ 0x0f ∷ [])

unfoldable pub is_lba : ℕ → Bool
is_lba type_id = one_of type_id (0x0e ∷ 0x1e ∷ 0x0c ∷ 0x1c ∷ 0x0f ∷ [])

abbrev with_lba : ℕ → ℕ
with_lba type_id =
    if type_id == 0x06
    then 0x0e
    else if type_id == 0x0b
    then 0x0c
    else if type_id == 0x05
    then 0x0f
    else type_id

abbrev without_lba : ℕ → ℕ
without_lba type_id =
    if type_id == 0x0e
    then 0x06
    else if type_id == 0x0c
    then 0x0b
    else if type_id == 0x0f
    then 0x05
    else type_id

unfoldable pub set_lba : ℕ → Bool → Bool × ℕ
unfolding supports_lba
set_lba type_id state =
    if supports_lba type_id
    then (true, if state then with_lba type_id else without_lba type_id)
    else (false, type_id)

unfoldable pub raw_part_is_extended : ℕ → Bool
raw_part_is_extended type_id = one_of type_id (0x05 ∷ 0x0f ∷ 0x85 ∷ [])
