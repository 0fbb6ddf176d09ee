-- ===== src/Disk/Resize.antt =====
-- Growing and shrinking to the limits: libparted/disk.c from `ped_disk_maximize_partition` to
-- `ped_disk_minimize_extended_partition`.
use mathlib.Core.List.{List, [], ◌∷◌}
use parted.Prelude.{◌==◌, Bool, true, false, Option, none, some, if◌then◌else◌}
use parted.Prelude.Int.{ℤ, pos, ◌+ℤ◌, ◌-ℤ◌}
use parted.Prelude.Run.{Run, done, deref, ped_assert, ◌>>=◌, ◌>>◌}
use parted.Geom.{Geometry, geometry_duplicate, geometry_test_equal}
use parted.Constraint.{Constraint, constraint_any, constraint_exact}
use parted.Disk.{Disk, Partition, Entry, partition_is_active, disk_extended_partition}
use parted.Disk.Label.{DiskOps}
use parted.Disk.Update.{entry_geom, part_geom, current, disk_push_update_mode}
use parted.Disk.Change.{popped, disk_set_partition_geom, disk_delete_partition}

module _ {A : Type 0} (geom_of : A → Geometry) (is_part : A → Bool) where
  -- Behind `part->prev`, or the default where there is none.
  unfoldable pub after_prev : ℤ → List A → ℤ
  after_prev new_start [] = new_start
  after_prev new_start (walk ∷ walks) =
      if is_part walk then new_start else after_prev ((geom_of walk).end +ℤ pos 1) walks

  -- In front of `part->next`, or the default where there is none.
  unfoldable pub before_next : ℤ → List A → ℤ
  before_next new_end [] = new_end
  before_next new_end (walk ∷ walks) =
      if is_part walk
      then elim walks [ [] ↦ new_end | next ∷ _ ↦ (geom_of next).start -ℤ pos 1 ]
      else before_next new_end walks

-- The limits of a partition in its list: from `new_start` to `new_end`.
unfoldable pub limits : Disk → Partition → Run (ℤ × ℤ)
unfolding after_prev before_next
limits disk part =
    if part.type.logical
    then deref (disk_extended_partition disk) >>= (λ ext_part. done (
      after_prev part_geom (λ walk. walk.id == part.id) ext_part.part.geom.start ext_part.part_list,
      before_next part_geom (λ walk. walk.id == part.id) ext_part.part.geom.end ext_part.part_list,
    ))
    else done (
      after_prev entry_geom (λ walk. walk.part.id == part.id) (pos 0) disk.part_list,
      before_next entry_geom (λ walk. walk.part.id == part.id) (disk.length -ℤ pos 1)
          disk.part_list,
    )

-- The last logical partition, of those behind the first.
abbrev last_of : Partition → List Partition → Partition
last_of last [] = last
last_of last (walk ∷ walks) = last_of walk walks

module _ (ops : DiskOps) (ignore : Bool) where
  -- Behind the call that may have failed: the old region is set again.
  unfoldable pub maximized : Disk → Entry → Bool × Disk → Run (Bool × Disk)
  maximized disk part (true, set) = popped ops ignore true set
  maximized disk part (false, set) = do
    any ← constraint_any (λ _. disk.length) disk.dev
    (_, restored) ←
        disk_set_partition_geom ops ignore set (current set part) any part.part.geom.start
          part.part.geom.end
    popped ops ignore false restored

  unfoldable pub disk_maximize_partition : Disk → Entry → Option Constraint → Run (Bool × Disk)
  unfolding limits maximized
  disk_maximize_partition disk part constraint = do
    pushed ← disk_push_update_mode ops disk
    (new_start, new_end) ← limits pushed part.part
    result ←
        disk_set_partition_geom ops ignore pushed (current pushed part) constraint new_start new_end
    maximized disk part result

  unfoldable pub max_geometry : Disk → Entry → Bool × Disk → Run (Option Geometry × Disk)
  max_geometry disk part (false, grown) = done (none, grown)
  max_geometry disk part (true, grown) = do
    max_geom ← geometry_duplicate (current grown part).part.geom
    exact ← constraint_exact (λ _. disk.length) part.part.geom
    (_, restored) ←
        disk_set_partition_geom ops ignore grown (current grown part) exact part.part.geom.start
          part.part.geom.end
    ped_assert (geometry_test_equal (current restored part).part.geom part.part.geom)
    done (max_geom, restored)

  unfoldable pub disk_get_max_partition_geometry :
      Disk → Entry → Option Constraint → Run (Option Geometry × Disk)
  unfolding disk_maximize_partition max_geometry
  disk_get_max_partition_geometry disk part constraint = do
    ped_assert (partition_is_active part.part)
    result ← disk_maximize_partition disk part constraint
    max_geometry disk part result

  -- Around the logical partitions, if there is one.
  unfoldable pub minimized : Disk → Entry → List Partition → Run (Bool × Disk)
  minimized pushed ext_part [] = popped ops ignore true pushed >>= (λ (_, disk).
      disk_delete_partition ops ignore disk ext_part >>= (λ deleted. done (true, deleted)))
  minimized pushed ext_part (first_logical ∷ logicals) = do
    constraint ← constraint_any (λ _. pushed.length) pushed.dev
    (status, set) ←
        disk_set_partition_geom ops ignore pushed ext_part constraint first_logical.geom.start
          (last_of first_logical logicals).geom.end
    popped ops ignore status set

  unfoldable pub disk_minimize_extended_partition : Disk → Run (Bool × Disk)
  unfolding minimized
  disk_minimize_extended_partition disk = elim (disk_extended_partition disk) [
    | none ↦ done (true, disk)
    | some ext_part ↦ disk_push_update_mode ops disk >>= (λ pushed.
        minimized pushed (current pushed ext_part) (current pushed ext_part).part_list)
  ]
