-- ===== src/Disk/Update.antt =====
-- Update mode, the pseudo partitions for free space, and the numbering: libparted/disk.c from
-- `_disk_remove_freespace` to `_disk_pop_update_mode`, and the functions that these call.
use mathlib.Core.List.{List, [], ◌∷◌, map}
use parted.Prelude.{
  ℕ, zero, suc, ◌-◌, Bool, true, false, not, ◌&&◌, ◌==◌, ltb, Option, none, some, if◌then◌else◌,
}
use parted.Prelude.Int.{ℤ, pos, negsuc, pos_part, ◌+ℤ◌, ◌-ℤ◌, ◌==ℤ◌}
use parted.Prelude.Run.{Run, done, ped_assert, deref, ◌>>=◌, ◌>>◌}
use parted.Geom.{Geometry}
use parted.Disk.{
  Disk, Partition, Entry, PartitionType, is_extended, partition_is_active, disk_extended_partition,
  all_partitions, first_with, disk_get_partition, disk_get_last_partition_num,
}
use parted.Disk.Label.{DiskOps, partition_new}
use parted.Disk.Chain.{raw_add, fill_gaps, without}

abbrev pub entry_geom : Entry → Geometry
entry_geom walk = walk.part.geom

abbrev pub part_geom : Partition → Geometry
part_geom walk = walk.geom

-- `f` on the list of the extended partition.
abbrev pub on_extended : (List Partition → List Partition) → List Entry → List Entry
on_extended f [] = []
on_extended f (walk ∷ walks) =
    if is_extended walk.part.type
    then record walk { part_list = f walk.part_list } ∷ walks
    else walk ∷ on_extended f walks

-- `f` on the partition at an address, wherever it is.
abbrev pub at_part : ℕ → (Partition → Partition) → Partition → Partition
at_part id f part = if part.id == id then f part else part

abbrev pub at_entry : ℕ → (Partition → Partition) → Entry → Entry
at_entry id f walk = record {
  part = at_part id f walk.part;
  part_list = map (at_part id f) walk.part_list;
}

unfoldable pub change : Disk → ℕ → (Partition → Partition) → Disk
change disk id f = record disk { part_list = map (at_entry id f) disk.part_list }

-- The partition as it stands in the disk now, where it is in the disk.
abbrev pub current_in : List Entry → Entry → Entry
current_in [] part = part
current_in (walk ∷ walks) part =
    if walk.part.id == part.part.id
    then walk
    else elim (first_with (λ p. p.id == part.part.id) walk.part_list) as (λ _. Entry) [
      | some p ↦ record { part = p; part_list = [] }
      | none ↦ current_in walks part
    ]

unfoldable pub current : Disk → Entry → Entry
current disk part = current_in disk.part_list part

unfoldable pub disk_raw_remove : Disk → Partition → Disk
disk_raw_remove disk part = record disk {
  part_list =
      if part.type.logical
      then on_extended (without (λ walk. walk.id == part.id)) disk.part_list
      else without (λ walk. walk.part.id == part.id) disk.part_list;
}

unfoldable pub disk_raw_add : Disk → Entry → Run Disk
disk_raw_add disk new = do
  ped_assert (ltb 0 disk.update_mode)
  if new.part.type.logical
      then deref (disk_extended_partition disk) >>= (λ _.
        done (record disk { part_list = on_extended (raw_add part_geom new.part) disk.part_list }))
      else done (record disk { part_list = raw_add entry_geom new disk.part_list })

unfoldable pub disk_remove_freespace : Disk → Disk
disk_remove_freespace disk = record disk {
  part_list =
      on_extended (without (λ walk. walk.type.freespace))
        (without (λ walk. walk.part.type.freespace) disk.part_list);
}

-- PED_PARTITION_FREESPACE, and that or PED_PARTITION_LOGICAL.
abbrev pub free_type : PartitionType
free_type = record {
  logical = false;
  extended = false;
  freespace = true;
  metadata = false;
  protected = false;
}

abbrev pub free_logical_type : PartitionType
free_logical_type = record free_type { logical = true }

abbrev pub as_entry : Option Partition → Option Entry
as_entry none = none
as_entry (some part) = some (record { part = part; part_list = [] })

abbrev pub counted_up : Disk → Disk
counted_up disk = record disk { update_mode = suc disk.update_mode }

abbrev pub counted_down : Disk → Disk
counted_down disk = record disk { update_mode = disk.update_mode - 1 }

module _ (ops : DiskOps) where
  abbrev pub new_logical_free : Disk → ℤ → ℤ → Option Partition
  new_logical_free disk start end = partition_new ops disk free_logical_type none start end

  abbrev pub new_free : Disk → ℤ → ℤ → Option Entry
  new_free disk start end = as_entry (partition_new ops disk free_type none start end)

  unfoldable pub alloc_extended_freespace : Disk → Run Disk
  alloc_extended_freespace disk = elim (disk_extended_partition disk) [
    | none ↦ done disk
    | some extended_part ↦
        fill_gaps part_geom (new_logical_free disk) false extended_part.part.geom.start
          extended_part.part.geom.end extended_part.part_list
        >>= (λ filled. done (record disk { part_list = on_extended (λ _. filled) disk.part_list }))
  ]

  -- Both lists without free space, and then with it.
  unfoldable pub disk_alloc_freespace : Disk → Run Disk
  unfolding alloc_extended_freespace
  disk_alloc_freespace disk = do
    logical_done ← alloc_extended_freespace (disk_remove_freespace disk)
    filled ←
        fill_gaps entry_geom (new_free logical_done) false (negsuc 0) (logical_done.length -ℤ pos 1)
          logical_done.part_list
    done (record logical_done { part_list = filled })

  abbrev numbered : Disk → Partition → Bool × ℤ → Bool × Disk
  numbered disk part (status, num) =
      (status, change disk part.id (λ walk. record walk { num = num }))

  -- One round of either loop of `ped_disk_enumerate_partitions`: the loop ends at a failure.
  number_if : Bool × Disk → (Disk → Option Partition) → Run (Bool × Disk)
  number_if (false, disk) find = done (false, disk)
  number_if (true, disk) find = elim (find disk) [
    | none ↦ done (true, disk)
    | some walk ↦ ops.partition_enumerate disk walk >>= (λ result. done (numbered disk walk result))
  ]

  -- The partitions with the numbers from `i` on, `rounds` of them.
  number_sorted : ℕ → ℤ → Bool × Disk → Run (Bool × Disk)
  number_sorted zero i state = done state
  number_sorted (suc rounds) i state = do
    state' ← number_if state (λ disk. disk_get_partition disk i)
    number_sorted rounds (i +ℤ pos 1) state'

  abbrev unnumbered : ℕ → Disk → Option Partition
  unnumbered id disk =
      first_with (λ walk. (walk.id == id) && (partition_is_active walk && (walk.num ==ℤ negsuc 0)))
        (all_partitions disk)

  number_rest : List Partition → Bool × Disk → Run (Bool × Disk)
  number_rest [] state = done state
  number_rest (walk ∷ walks) state = do
    state' ← number_if state (unnumbered walk.id)
    number_rest walks state'

  unfoldable pub disk_enumerate_partitions : Disk → Run (Bool × Disk)
  unfolding number_if number_sorted number_rest
  disk_enumerate_partitions disk = do
    sorted ← number_sorted (pos_part (disk_get_last_partition_num disk)) (pos 1) (true, disk)
    number_rest (all_partitions sorted.1) sorted

  -- The functions on partitions in update mode, where `_disk_push_update_mode` and
  -- `_disk_pop_update_mode` only count.
  unfoldable pub remove_in_update_mode : Disk → Entry → Run Disk
  unfolding disk_enumerate_partitions
  remove_in_update_mode disk walk = do
    ped_assert (elim walk.part_list [ [] ↦ true | _ ∷ _ ↦ false ])
    (_, removed) ←
        disk_enumerate_partitions (counted_down (disk_raw_remove (counted_up disk) walk.part))
    done removed

  delete_logicals : Disk → List Partition → Run Disk
  delete_logicals disk [] = done disk
  delete_logicals disk (walk ∷ walks) = do
    removed ← remove_in_update_mode (counted_up disk) (record { part = walk; part_list = [] })
    delete_logicals (counted_down removed) walks

  unfoldable pub delete_in_update_mode : Disk → Entry → Run Disk
  unfolding delete_logicals
  delete_in_update_mode disk walk = do
    without_logicals ←
        (if is_extended walk.part.type
          then delete_logicals (counted_up disk) walk.part_list
          else done (counted_up disk))
    removed ←
        remove_in_update_mode without_logicals
          (if is_extended walk.part.type then record walk { part_list = [] } else walk)
    done (counted_down removed)

  remove_metadata_of : Disk → List Partition → Run Disk
  remove_metadata_of disk [] = done disk
  remove_metadata_of disk (walk ∷ walks) =
      if not walk.type.metadata then remove_metadata_of disk walks else do
        removed ← delete_in_update_mode disk (record { part = walk; part_list = [] })
        remove_metadata_of removed walks

  -- Called in update mode.
  unfoldable pub disk_remove_metadata : Disk → Run Disk
  unfolding remove_metadata_of
  disk_remove_metadata disk = remove_metadata_of disk (all_partitions disk)

  unfoldable pub disk_push_update_mode : Disk → Run Disk
  unfolding disk_remove_metadata
  disk_push_update_mode disk =
      if disk.update_mode == 0
      then disk_remove_metadata (counted_up (disk_remove_freespace disk))
      else done (counted_up disk)

  unfoldable pub disk_pop_update_mode : Disk → Run Disk
  unfolding disk_alloc_freespace
  disk_pop_update_mode disk = do
    ped_assert (ltb 0 disk.update_mode)
    if disk.update_mode == 1
        then ops.alloc_metadata disk >>= (λ result. disk_alloc_freespace (counted_down result.1))
        else done (counted_down disk)
