-- ===== src/Disk.antt =====
-- The partitions of a disk: libparted/disk.c and the structs of include/parted/disk.in.h. A list
-- that is linked through `prev` and `next` is a List, and a partition in it is known by its
-- address. Only an extended partition has a list of its own, of partitions that have none. The
-- functions of a disk label (struct _PedDiskOps) are parameters. ped_malloc is taken to succeed.
pub mod Chain
pub mod Label
pub mod Update
pub mod Change
pub mod Resize
pub mod Room
pub mod Layout
pub mod Overlap
pub mod Insert
pub mod RawAdd
pub mod Contract
pub mod Checking
pub mod Counting
pub mod Adding
pub mod Free
pub mod Freespace
pub mod Place
pub mod Removed
pub mod Moving
pub mod Setting
pub mod Limits
pub mod Tests
use mathlib.Core.List.{List, [], ◌∷◌, ◌++◌}
use parted.Prelude.{
  ℕ, suc, ◌+◌, Bool, true, false, not, ◌&&◌, ◌||◌, ◌==◌, Option, none, some, if◌then◌else◌,
}
use parted.Prelude.Int.{ℤ, pos, negsuc, ◌+ℤ◌, ◌-ℤ◌, ltb_ℤ, ◌==ℤ◌}
use parted.Prelude.Run.{Run, done, ◌>>=◌}
use parted.Geom.{Geometry, unset, geometry_init, geometry_test_sector_inside}

-- The bits of PedPartitionType.
pub record PartitionType : Type 0 where
  pub logical : Bool
  pub extended : Bool
  pub freespace : Bool
  pub metadata : Bool
  pub protected : Bool

-- `id` is the address.
pub record Partition : Type 0 where
  pub id : ℕ
  pub geom : Geometry
  pub num : ℤ
  pub type : PartitionType

-- A partition of the disk's own list, with its `part_list`.
pub record Entry : Type 0 where
  pub part : Partition
  pub part_list : List Partition

-- `length` is that of the device.
pub record Disk : Type 0 where
  pub dev : ℕ
  pub length : ℤ
  pub part_list : List Entry
  pub needs_clobber : Bool
  pub update_mode : ℕ

-- `type == PED_PARTITION_EXTENDED`: the bit and no other.
abbrev pub is_extended : PartitionType → Bool
is_extended t = t.extended && not (t.logical || t.freespace || t.metadata || t.protected)

abbrev pub is_logical : PartitionType → Bool
is_logical t = t.logical && not (t.extended || t.freespace || t.metadata || t.protected)

abbrev pub partition_is_active : Partition → Bool
partition_is_active part = not (part.type.metadata || part.type.freespace)

abbrev pub first_extended : List Entry → Option Entry
first_extended [] = none
first_extended (walk ∷ walks) =
    if is_extended walk.part.type then some walk else first_extended walks

unfoldable pub disk_extended_partition : Disk → Option Entry
disk_extended_partition disk = first_extended disk.part_list

-- The partitions in the order of `ped_disk_next_partition`, where at most one is extended.
abbrev pub walk_entries : List Entry → List Partition
walk_entries [] = []
walk_entries (walk ∷ walks) =
    if is_extended walk.part.type
    then walk.part ∷ (walk.part_list ++ walk_entries walks)
    else walk.part ∷ walk_entries walks

unfoldable pub all_partitions : Disk → List Partition
all_partitions disk = walk_entries disk.part_list

-- The first partition that passes the test.
abbrev pub first_with : (Partition → Bool) → List Partition → Option Partition
first_with test [] = none
first_with test (walk ∷ walks) = if test walk then some walk else first_with test walks

unfoldable pub disk_get_partition : Disk → ℤ → Option Partition
unfolding all_partitions
disk_get_partition disk num =
    first_with (λ walk. (walk.num ==ℤ num) && not walk.type.freespace) (all_partitions disk)

unfoldable pub disk_get_partition_by_sector : Disk → ℤ → Option Partition
unfolding all_partitions
disk_get_partition_by_sector disk sect =
    first_with (λ walk. geometry_test_sector_inside walk.geom sect && not (is_extended walk.type))
      (all_partitions disk)

abbrev pub count_primaries : List Partition → ℤ
count_primaries [] = pos 0
count_primaries (walk ∷ walks) =
    if partition_is_active walk && not walk.type.logical
    then count_primaries walks +ℤ pos 1
    else count_primaries walks

unfoldable pub disk_get_primary_partition_count : Disk → ℤ
unfolding all_partitions
disk_get_primary_partition_count disk = count_primaries (all_partitions disk)

abbrev pub highest_num : ℤ → List Partition → ℤ
highest_num highest [] = highest
highest_num highest (walk ∷ walks) =
    highest_num (if ltb_ℤ highest walk.num then walk.num else highest) walks

unfoldable pub disk_get_last_partition_num : Disk → ℤ
unfolding all_partitions
disk_get_last_partition_num disk = highest_num (negsuc 0) (all_partitions disk)

-- `_ped_partition_alloc`, at an address that malloc returns.
unfoldable pub partition_alloc : ℕ → Disk → PartitionType → ℤ → ℤ → Run (Option Partition)
partition_alloc id disk type start end = do
  (ok, geom) ← geometry_init unset disk.dev start (end -ℤ start +ℤ pos 1)
  done (if ok then some (record { id = id; geom = geom; num = negsuc 0; type = type }) else none)
