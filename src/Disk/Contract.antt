-- ===== src/Disk/Contract.antt =====
-- What disk.c relies on in the functions of a disk label.
use parted.Prelude.{◌≡◌, true, false, none, some}
use parted.Prelude.Int.{ℤ, pos, negsuc, ◌≤ℤ◌, ◌<ℤ◌, ◌==ℤ◌}
use parted.Prelude.Run.{Returns}
use parted.Geom.{Geometry}
use parted.Geom.Valid.{IsValid}
use parted.Constraint.Solution.{Parts, whole, IsSound, SolvedBy}
use parted.Disk.{Disk, Partition, PartitionType}
use parted.Disk.Label.{DiskOps}

-- A new partition of the type, from `start` to `end`.
abbrev pub IsMade : PartitionType → ℤ → ℤ → Partition → Type 0
IsMade type start end part =
    IsValid part.geom × (part.geom.start ≡ start) × (part.geom.end ≡ end) × (part.type ≡ type)

-- A new partition is what was asked for.
pub record IsMaker (ops : DiskOps) : Type 0 where
  pub makes :
      (disk : Disk) (type : PartitionType) (start end : ℤ)
      → pos 0 ≤ℤ start
      → start ≤ℤ end
      → (part : Partition) × (ops.partition_new disk type none start end ≡ some part)
        × IsMade type start end part

-- The start range is on the device of the region, and the end range on that of the disk.
abbrev pub IsOnDisk : Disk → Geometry → Parts → Type 0
IsOnDisk disk geom p =
    (p.start_range.dev ≡ geom.dev) × (p.end_range.dev ≡ disk.dev) × (p.end_range.end <ℤ disk.length)

-- A partition that is numbered has a number. One that is aligned, with a constraint on the disk,
-- has a valid region that satisfies it.
pub record IsLabel (ops : DiskOps) : Type 0 where
  pub enumerates :
      (disk : Disk) (part : Partition)
      → Returns (ops.partition_enumerate disk part) (λ r. r.0 ≡ true → (r.1 ==ℤ negsuc 0) ≡ false)
  pub aligns :
      (disk : Disk) (part : Partition) (p : Parts)
      → IsSound p
      → IsOnDisk disk part.geom p
      → Returns
          (ops.partition_align disk part (some (whole p)))
          (λ r. r.0 ≡ true → IsValid r.1 × SolvedBy p r.1)
