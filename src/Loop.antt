-- ===== src/Loop.antt =====
-- The label for a disk that is one file system: the functions of libparted/labels/loop.c that
-- disk.c calls when partitions are changed.
use parted.Prelude.{
  ℕ, ◌==◌, ◌≡◌, Bool, true, false, Option, none, some, refl, arith, sym, subst, if◌then◌else◌,
}
use parted.Prelude.Int.{ℤ, pos, negsuc, ◌+ℤ◌, ◌-ℤ◌, ◌≤ℤ◌, ◌<ℤ◌, int_laws}
use parted.Prelude.Run.{Run, done, fault, ◌>>=◌, Returns, Returns_bind}
use parted.Geom.{Geometry, unset, geometry_init, geometry_set}
use parted.Geom.Valid.{IsValid, set_again}
use parted.Constraint.{Constraint, constraint_solve_nearest}
use parted.Constraint.Solution.{Parts, whole, IsSound, SolvedBy}
use parted.Constraint.Solve.{IsAnswer, constraint_solve_nearest-IsAnswer}
use parted.Disk.{Disk, Partition, PartitionType, partition_alloc}
use parted.Disk.Label.{DiskOps}
use parted.Disk.Contract.{IsMade, IsMaker, IsLabel, IsOnDisk}

-- The lengths of the devices: of that of the disk, and of others.
device_length : (ℕ → ℤ) → Disk → ℕ → ℤ
device_length others disk dev = if dev == disk.dev then disk.length else others dev

-- `part->num` is 1 afterwards.
unfoldable pub loop_partition_enumerate : Disk → Partition → Run (Bool × ℤ)
loop_partition_enumerate disk part = done (true, pos 1)

unfoldable pub loop_partition_set_system : Partition → Option ℕ → Bool
loop_partition_set_system part fs_type = true

unfoldable pub loop_alloc_metadata : Disk → Run (Bool × Disk)
loop_alloc_metadata disk = done (true, disk)

unfoldable pub loop_get_max_primary_partition_count : Disk → ℤ
loop_get_max_primary_partition_count disk = pos 1

-- `address` is what malloc returns. `_ped_partition_alloc` has no assertion that can fail.
unfoldable pub loop_partition_new : ℕ → Disk → PartitionType → Option ℕ → ℤ → ℤ → Option Partition
unfolding partition_alloc
loop_partition_new address disk part_type fs_type start end =
    elim (partition_alloc address disk part_type start end) [ done part ↦ part | fault ↦ none ]

set_to : Geometry → Option Geometry → Run (Bool × Geometry)
set_to geom none = done (false, geom)
set_to geom (some new_geom) = do
  (_, geom') ← geometry_set geom new_geom.start new_geom.length
  done (true, geom')

unfoldable pub loop_partition_align :
    (ℕ → ℤ) → Disk → Partition → Option Constraint → Run (Bool × Geometry)
unfolding device_length set_to
loop_partition_align others disk part constraint =
    constraint_solve_nearest (device_length others disk) constraint part.geom >>= set_to part.geom

-- `check` is `loop_partition_check`, which looks up a table of limits.
abbrev pub loop_disk_ops : (ℕ → ℤ) → ℕ → (Disk → Partition → Bool) → DiskOps
loop_disk_ops others address check = record {
  supports_extended = false;
  partition_new = loop_partition_new address;
  partition_set_system = loop_partition_set_system;
  partition_align = loop_partition_align others;
  partition_enumerate = loop_partition_enumerate;
  partition_check = check;
  alloc_metadata = loop_alloc_metadata;
  get_max_primary_partition_count = loop_get_max_primary_partition_count;
}

geometry_init_made :
    (dev : ℕ) (s e : ℤ)
    → pos 0 ≤ℤ s
    → s ≤ℤ e
    → geometry_init unset dev s (e -ℤ s +ℤ pos 1)
      ≡ done (true, record { dev = dev; start = s; length = e -ℤ s +ℤ pos 1; end = e })
unfolding geometry_init
geometry_init_made dev s e h k = grind int_laws

module _ (others : ℕ → ℤ) (address : ℕ) (check : Disk → Partition → Bool) where
  loop_partition_new-IsMade :
      (disk : Disk) (type : PartitionType) (start end : ℤ)
      → pos 0 ≤ℤ start
      → start ≤ℤ end
      → (part : Partition) × (loop_partition_new address disk type none start end ≡ some part)
        × IsMade type start end part
  unfolding loop_partition_new partition_alloc
  loop_partition_new-IsMade disk type start end nonneg le =
      let geom : Geometry = record {
        dev = disk.dev;
        start = start;
        length = end -ℤ start +ℤ pos 1;
        end = end;
      } in
      (
        record { id = address; geom = geom; num = negsuc 0; type = type },
        rw (loop_partition_new, geometry_init_made disk.dev start end nonneg le) refl,
        (
          record { ends = omega int_laws; not_empty = omega int_laws; not_negative = nonneg },
          refl,
          refl,
          refl,
        ),
      )

  device_length-own :
      (disk : Disk) (dev : ℕ) → dev ≡ disk.dev → device_length others disk dev ≡ disk.length
  unfolding device_length
  device_length-own disk dev e = ground arith

  loop_partition_align-Solves :
      (disk : Disk) (part : Partition) (p : Parts)
      → IsSound p
      → IsOnDisk disk part.geom p
      → Returns
          (loop_partition_align others disk part (some (whole p)))
          (λ r. r.0 ≡ true → IsValid r.1 × SolvedBy p r.1)
  unfolding loop_partition_align set_to
  loop_partition_align-Solves disk part p sound (start_dev, end_dev, inside) =
      Returns_bind _ _
        (constraint_solve_nearest (device_length others disk) (some (whole p)) part.geom)
        (set_to part.geom)
        (constraint_solve_nearest-IsAnswer (device_length others disk) p part.geom sound start_dev (
          subst (λ n. p.end_range.end <ℤ n) (sym (device_length-own disk p.end_range.dev end_dev))
            inside))
        stored_solution
    where
      stored_solution :
          (r : Option Geometry)
          → IsAnswer p part.geom r
          → Returns (set_to part.geom r) (λ r. r.0 ≡ true → IsValid r.1 × SolvedBy p r.1)
      stored_solution none _ = λ e. cc e
      stored_solution (some g) (v, d, solved) =
          rw (set_again part.geom g v (sym d)) (λ _. (v, solved))

  -- The label makes what it is asked for.
  pub loop-IsMaker : IsMaker (loop_disk_ops others address check)
  loop-IsMaker = record { makes = loop_partition_new-IsMade }

  -- The label numbers and aligns as it should.
  pub loop-IsLabel : IsLabel (loop_disk_ops others address check)
  unfolding loop_partition_enumerate
  loop-IsLabel = record { enumerates = λ disk part e. refl; aligns = loop_partition_align-Solves }
