-- ===== src/Dos/Flags.antt =====
-- The flags of a partition of the DOS label: `msdos_partition_set_system` to
-- `msdos_partition_get_type_id` in libparted/labels/dos.c, and `is_linux_swap` of
-- libparted/labels/misc.h.
pub mod Types
pub mod Setting
mod Tests
use Prim.Native.String.{String}
use mathlib.Core.List.{List, [], ◌∷◌}
use text.Mathlib.Text.{starts_with, ◌==◌ as str_eq}
use parted.Prelude.{ℕ, Bool, true, false, ◌||◌, ◌&&◌, not, ◌==◌, Option, none, some, if◌then◌else◌}
use parted.Prelude.Run.{Run, done, ped_assert, ◌>>=◌, ◌>>◌}
use parted.Disk.{Partition, is_extended, partition_is_active}
use parted.Dos.TypeId.{
  FlagId, flag_boot, flag_hidden, flag_lba, partition_linux, partition_linux_swap,
  partition_ext_lba, find_flag_id_mapping, is_skip_type, supports_hidden, is_hidden, set_hidden,
  supports_lba, is_lba, set_lba,
}

-- `disk_specific` without what is kept of the place in the table.
pub record DosPartition : Type 0 where
  pub part : Partition
  pub fs_type : Option String
  pub system : ℕ
  pub boot : Bool

unfoldable pub is_linux_swap : String → Bool
is_linux_swap fs_type_name = starts_with fs_type_name "linux-swap"

-- The type for a file system.
unfoldable pub type_of : Option String → ℕ
unfolding is_linux_swap
type_of none = partition_linux
type_of (some name) =
    if str_eq name "fat16"
    then 0x06
    else if str_eq name "fat32"
    then 0x0b
    else if str_eq name "ntfs" || str_eq name "hpfs"
    then 0x07
    else if str_eq name "hfs" || str_eq name "hfs+"
    then 0xaf
    else if str_eq name "udf"
    then 0x07
    else if str_eq name "sun-ufs"
    then 0xbf
    else if is_linux_swap name
    then partition_linux_swap
    else partition_linux

-- It always returns 1.
unfoldable pub msdos_partition_set_system : DosPartition → Option String → DosPartition
unfolding type_of
msdos_partition_set_system part fs_type =
    if is_skip_type part.system
    then record part { fs_type = fs_type }
    else if part.part.type.extended
    then record part { fs_type = fs_type; system = partition_ext_lba }
    else record part { fs_type = fs_type; system = type_of fs_type }

-- `ped_partition_set_system` of disk.c, over this label.
unfoldable pub partition_set_system : DosPartition → Option String → Run DosPartition
unfolding msdos_partition_set_system
partition_set_system part fs_type = do
  ped_assert (partition_is_active part.part)
  done (msdos_partition_set_system part fs_type)

-- The part for the flags in `flag_id_mapping`.
unfoldable pub set_mapped : FlagId → DosPartition → Bool → Run (Bool × DosPartition)
unfolding partition_set_system
set_mapped p part state =
    if part.part.type.extended
    then done (false, part)
    else if state
    then done (true, record part { system = p.type_id })
    else if part.system == p.type_id || part.system == p.alt_type_id
    then partition_set_system (record part { system = partition_linux }) part.fs_type
      >>= (λ part'. done (true, part'))
    else done (true, part)

-- What `set_hidden` and `set_lba` store.
unfoldable pub store_type : DosPartition → Bool × ℕ → Bool × DosPartition
store_type part (ok, type_id) = (ok, record part { system = type_id })

unfoldable pub set_by : Option FlagId → DosPartition → ℕ → Bool → Run (Bool × DosPartition)
unfolding store_type
set_by (some p) part flag state = set_mapped p part state
set_by none part flag state = done (
    if flag == flag_hidden
    then store_type part (set_hidden part.system state)
    else if flag == flag_lba
    then store_type part (set_lba part.system state)
    else if flag == flag_boot
    then (true, record part { boot = state })
    else (false, part))

-- What `msdos_partition_set_flag` does with the partition itself.
unfoldable pub set_own_flag : DosPartition → ℕ → Bool → Run (Bool × DosPartition)
unfolding set_by
set_own_flag part flag state = set_by (find_flag_id_mapping flag) part flag state

-- What is stored in the place of `walk`: the changed partition in its own, and the boot flag of the
-- other active ones is cleared if `clears`.
unfoldable pub store_one : Bool → DosPartition → DosPartition → Run DosPartition
store_one clears part walk =
    if walk.part.id == part.part.id
    then done part
    else if clears && partition_is_active walk.part
    then set_own_flag walk flag_boot false >>= (λ r. done r.1)
    else done walk

-- The partitions of the disk, in the order of `ped_disk_next_partition`.
unfoldable pub store_part : Bool → DosPartition → List DosPartition → Run (List DosPartition)
store_part clears part [] = done []
store_part clears part (walk ∷ walks) = do
  walk' ← store_one clears part walk
  walks' ← store_part clears part walks
  done (walk' ∷ walks')

unfoldable pub msdos_partition_set_flag :
    List DosPartition → DosPartition → ℕ → Bool → Run (Bool × List DosPartition)
unfolding store_part
msdos_partition_set_flag disk part flag state = do
  (ok, part') ← set_own_flag part flag state
  disk' ← store_part (state && flag == flag_boot) part' disk
  done (ok, disk')

unfoldable pub get_by : Option FlagId → DosPartition → ℕ → Bool
get_by (some p) part flag = part.system == p.type_id || part.system == p.alt_type_id
get_by none part flag =
    if flag == flag_hidden
    then is_hidden part.system
    else if flag == flag_lba
    then is_lba part.system
    else if flag == flag_boot
    then part.boot
    else false

unfoldable pub msdos_partition_get_flag : DosPartition → ℕ → Bool
unfolding get_by
msdos_partition_get_flag part flag = get_by (find_flag_id_mapping flag) part flag

unfoldable pub available_by : Option FlagId → DosPartition → ℕ → Bool
available_by (some p) part flag = not (is_extended part.part.type)
available_by none part flag =
    if flag == flag_hidden
    then supports_hidden part.system
    else if flag == flag_lba
    then supports_lba part.system
    else flag == flag_boot

unfoldable pub msdos_partition_is_flag_available : DosPartition → ℕ → Bool
unfolding available_by
msdos_partition_is_flag_available part flag = available_by (find_flag_id_mapping flag) part flag

unfoldable pub msdos_partition_set_type_id : DosPartition → ℕ → DosPartition
msdos_partition_set_type_id part id = record part { system = id }

-- `ped_partition_set_flag`, `ped_partition_get_flag` and `ped_partition_is_flag_available` of
-- disk.c, over this label.
unfoldable pub partition_set_flag :
    List DosPartition → DosPartition → ℕ → Bool → Run (Bool × List DosPartition)
partition_set_flag disk part flag state = do
  ped_assert (partition_is_active part.part)
  if msdos_partition_is_flag_available part flag
      then msdos_partition_set_flag disk part flag state
      else done (false, disk)

unfoldable pub partition_get_flag : DosPartition → ℕ → Run Bool
partition_get_flag part flag = do
  ped_assert (partition_is_active part.part)
  done (msdos_partition_get_flag part flag)

unfoldable pub partition_is_flag_available : DosPartition → ℕ → Run Bool
partition_is_flag_available part flag = do
  ped_assert (partition_is_active part.part)
  done (msdos_partition_is_flag_available part flag)
