-- ===== src/Disk/Label.antt =====
-- The functions of a disk label that disk.c calls (struct _PedDiskOps of include/parted/disk.in.h),
-- and those of disk.c that only pass a call on to them.
use parted.Prelude.{ℕ, Bool, true, false, not, ◌&&◌, ◌||◌, Option, none, some, if◌then◌else◌, ltb}
use parted.Prelude.Int.{ℤ, negsuc, ◌==ℤ◌}
use parted.Prelude.Run.{Run, done, fault, ped_assert, ◌>>=◌, ◌>>◌, or_null}
use parted.Geom.{Geometry, geometry_set}
use parted.Constraint.{Constraint, constraint_intersect, constraint_solve_nearest}
use parted.Disk.{Disk, Partition, PartitionType, is_extended, is_logical}

-- `partition_align` and `partition_enumerate` give what they store in the partition: its region and
-- its number. `supports_extended` is a bit of the features; a file system type is an address.
pub record DiskOps : Type 0 where
  pub supports_extended : Bool
  pub partition_new : Disk → PartitionType → Option ℕ → ℤ → ℤ → Option Partition
  pub partition_set_system : Partition → Option ℕ → Bool
  pub partition_align : Disk → Partition → Option Constraint → Run (Bool × Geometry)
  pub partition_enumerate : Disk → Partition → Run (Bool × ℤ)
  pub partition_check : Disk → Partition → Bool
  pub alloc_metadata : Disk → Run (Bool × Disk)
  pub get_max_primary_partition_count : Disk → ℤ

-- What `_ped_partition_attempt_align` stores: the place of the solution, in the old region.
stored : Geometry → Geometry → Run (Bool × Geometry)
stored geom solution = do
  (_, geom') ← geometry_set geom solution.start solution.length
  done (true, geom')

abbrev aligned_to : (ℕ → ℤ) → Geometry → Run (Option Geometry) → Run (Bool × Geometry)
unfolding stored
aligned_to length_of geom (done (some solution)) = stored geom solution
aligned_to length_of geom (done none) = done (false, geom)
aligned_to length_of geom fault = fault

-- `_ped_partition_attempt_align`, which label code aligns partitions with.
unfoldable pub partition_attempt_align :
    (ℕ → ℤ) → Geometry → Option Constraint → Option Constraint → Run (Bool × Geometry)
unfolding stored
partition_attempt_align length_of geom external internal = aligned_to length_of geom (
    or_null (constraint_intersect external internal)
      (λ intersection. constraint_solve_nearest length_of (some intersection) geom))

module _ (ops : DiskOps) where
  unfoldable pub partition_new : Disk → PartitionType → Option ℕ → ℤ → ℤ → Option Partition
  partition_new disk type fs_type start end =
      if not ops.supports_extended && (is_extended type || is_logical type)
      then none
      else elim (ops.partition_new disk type fs_type start end) [
        | none ↦ none
        | some part ↦
            if elim fs_type [ none ↦ is_extended part.type | some _ ↦ true ]
            then (if ops.partition_set_system part fs_type then some part else none)
            else some part
      ]

  -- A partition is not aligned while it is read from the disk.
  unfoldable pub partition_align : Disk → Partition → Option Constraint → Run (Bool × Geometry)
  partition_align disk part constraint = do
    ped_assert (not (part.num ==ℤ negsuc 0))
    ped_assert (ltb 0 disk.update_mode)
    if disk.needs_clobber then done (true, part.geom) else ops.partition_align disk part constraint
